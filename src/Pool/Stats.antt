-- ===== src/Pool/Stats.antt =====
-- internal/pool/pool.go: `Stats`, what the admin API shows of the accounts. `token_of` reads the
-- refresh token that an account's client holds, and `to_int64` converts the float64 of a JSON number.
use mirasim2api.Base.{ℕ, Bool, true, false, Option, none, some, List, [], ◌∷◌, Str, str, Map}
use mirasim2api.Base.Float.{Float}
use mirasim2api.Base.Int.{ℤ, pos}
use mirasim2api.Base.Json.{Json, number, Fields, field_of, text_of}
use mirasim2api.Mirasim.Crypto.{Primitives, jwt_claims}
use mirasim2api.Pool.Entry.{Account, Entry, worst_used_ratio}

pub record AccountStat (R : Type 0) : Type 0 where
  pub id : Str
  pub email : Str
  pub name : Str
  pub provider : Str
  pub enabled : Bool
  pub inflight : ℤ
  pub failures : ℕ
  pub cooldown_until : ℕ
  pub worst_used_ratio : R
  pub suspended : Bool
  pub limits_fetched : Bool
  pub last_error : Str
  pub plan : Str
  pub plan_exp : ℤ

unfoldable pub plan_exp_of : (to_int64 : Str → ℤ) → Option Json → ℤ
plan_exp_of to_int64 (some (number n)) = to_int64 n
plan_exp_of to_int64 _ = pos 0

-- The plan and its end, which a token without claims does not name.
unfoldable pub plan_of : (to_int64 : Str → ℤ) → Option Fields → Str × ℤ
plan_of to_int64 none = ([], pos 0)
plan_of to_int64 (some claims) = (
  text_of (field_of (str "plan") claims),
  plan_exp_of to_int64 (field_of (str "plan_exp") claims),
)

module _ {R : Type 0} ⦃f : Float R⦄ where
  unfoldable pub stat_of :
      Primitives → (to_int64 : Str → ℤ) → (token_of : Account → Str) → Entry R → AccountStat R
  stat_of lib to_int64 token_of e =
      let (plan, plan_exp) = plan_of to_int64 (jwt_claims lib (token_of e.account)) in
      record {
        id = e.account.id;
        email = e.account.email;
        name = e.account.name;
        provider = e.account.provider;
        enabled = e.account.enabled;
        inflight = e.inflight;
        failures = e.failures;
        cooldown_until = e.cooldown_until;
        worst_used_ratio = worst_used_ratio e.limits;
        suspended = elim e.limits [ none ↦ false | some l ↦ l.suspended ];
        limits_fetched = elim e.limits [ none ↦ false | some l ↦ true ];
        last_error = e.last_error;
        plan = plan;
        plan_exp = plan_exp;
      }

  -- `entries` is what the runtime iterates over.
  unfoldable pub stats :
      Primitives
      → (to_int64 : Str → ℤ) → (token_of : Account → Str) → Map Str (Entry R)
      → List (AccountStat R)
  stats lib to_int64 token_of [] = []
  stats lib to_int64 token_of ((id, e) ∷ entries) =
      stat_of lib to_int64 token_of e ∷ stats lib to_int64 token_of entries
