-- ===== src/Admin/Accounts.antt =====
-- internal/admin/accounts.go: what the admin API shows of an account, the handlers that enable,
-- delete and refresh one, and the entry of a refresh token into store and pool. `up` says whether the
-- write of the store goes through; an answer is the outcome that its status and text tell.
pub mod View
pub mod Handlers
pub mod Joining
pub mod Tests
use mirasim2api.Base.{
  ℕ, suc, ◌-◌, ◌/◌, Bool, true, false, not, ◌&&◌, Option, none, some, List, [], ◌∷◌, Str, str, ltb,
  leb, ◌==◌, if◌then◌else◌, text_key,
}
use mirasim2api.Base.Float.{Float}
use mirasim2api.Base.Int.{ℤ, pos, sub_ℕ, ltb_ℤ, leb_ℤ}
use mirasim2api.Base.Json.{Json, number, string, Fields, field_of, text_of}
use mirasim2api.Base.Text.{trim_space, split_on}
use mirasim2api.Mirasim.Crypto.{Primitives, jwt_claims}
use mirasim2api.Pool.Entry.{Account, Entry, second}
use mirasim2api.Pool.Pick.{is_empty}
use mirasim2api.Pool.Reload.{reload, get, add}
use mirasim2api.Pool.Report.{Fetched, Refreshed, skipped, failed, stored, refresh_limits}
use mirasim2api.Pool.Stats.{AccountStat, stats}
use mirasim2api.Pool.Sticky.{Pool}
use mirasim2api.Store.Accounts.{
  Cipher, Result, returned, add_account, get_account, list_accounts, set_account_enabled,
  delete_account,
}
use mirasim2api.Store.Database.{Database}

pub record AccountView (R : Type 0) : Type 0 where
  pub id : Str
  pub email : Str
  pub name : Str
  pub provider : Str
  pub enabled : Bool
  pub usable : Bool
  pub inflight : ℤ
  pub failures : ℕ
  pub cooldown : Bool
  pub cooldown_seconds : ℤ
  pub used_ratio : R
  pub suspended : Bool
  pub limits_fetched : Bool
  pub last_error : Str
  pub plan : Str
  pub plan_exp : ℤ

-- `int64(time.Until(end).Seconds()) + 1` by a clock that shows `later`.
unfoldable pub seconds_left : (later end : ℕ) → ℤ
seconds_left later end =
    if leb later end then pos (suc ((end - later) / second)) else sub_ℕ 1 ((later - end) / second)

module _ {R : Type 0} ⦃f : Float R⦄ where
  -- The clock is read twice.
  unfoldable pub stat_to_view : (now later : ℕ) → AccountStat R → AccountView R
  stat_to_view now later s =
      let cooldown = ltb now s.cooldown_until in
      record {
        id = s.id;
        email = s.email;
        name = s.name;
        provider = s.provider;
        enabled = s.enabled;
        usable = s.enabled && (not cooldown && (not s.suspended && f.lt s.worst_used_ratio f.one));
        inflight = s.inflight;
        failures = s.failures;
        cooldown = cooldown;
        cooldown_seconds = if cooldown then seconds_left later s.cooldown_until else pos 0;
        used_ratio = s.worst_used_ratio;
        suspended = s.suspended;
        limits_fetched = s.limits_fetched;
        last_error = s.last_error;
        plan = s.plan;
        plan_exp = s.plan_exp;
      }

  -- The view that `handleAccountRefresh` looks for among the stats.
  unfoldable pub view_of : (now later : ℕ) → Str → List (AccountStat R) → Option (AccountView R)
  view_of now later id [] = none
  view_of now later id (s ∷ rest) =
      if s.id == id then some (stat_to_view now later s) else view_of now later id rest

pub data PatchAnswer : Type 0 where
  no_account not_json no_field update_failed reload_failed : PatchAnswer
  patched : Bool → PatchAnswer

pub data DeleteAnswer : Type 0 where
  none_to_delete delete_failed pool_not_reloaded deleted : DeleteAnswer

module _ {R S : Type 0} (cipher : Cipher) (client_ok : Account → Bool) where
  -- `body` is the field `enabled`, if the body is JSON and has it.
  unfoldable pub handle_account_patch :
      (up : Bool) (now : ℕ) (id : Str)
      → (body : Option (Option Bool)) → Database S
      → Pool R
      → Database S × Pool R × PatchAnswer
  handle_account_patch up now id body db p = elim (get_account cipher id db) [
    | none ↦ (db, p, no_account)
    | some a ↦ elim body [
      | none ↦ (db, p, not_json)
      | some field ↦ elim field [
        | none ↦ (db, p, no_field)
        | some enabled ↦ elim up [
          | false ↦ (db, p, update_failed)
          | true ↦
              let db' = set_account_enabled id enabled now db in
              let (p', loaded) = reload client_ok (list_accounts cipher db') p in
              (db', p', if loaded then patched enabled else reload_failed)
        ]
      ]
    ]
  ]

  unfoldable pub handle_account_delete :
      (up : Bool) (id : Str) → Database S → Pool R → Database S × Pool R × DeleteAnswer
  handle_account_delete up id db p = elim (get_account cipher id db) [
    | none ↦ (db, p, none_to_delete)
    | some a ↦ elim up [
      | false ↦ (db, p, delete_failed)
      | true ↦
          let db' = delete_account id db in
          let (p', loaded) = reload client_ok (list_accounts cipher db') p in
          (db', p', if loaded then deleted else pool_not_reloaded)
    ]
  ]

pub data RefreshAnswer (R : Type 0) : Type 0 where
  unknown_account refresh_failed : RefreshAnswer R
  refreshed_to : Option (AccountView R) → RefreshAnswer R

module _ {R : Type 0} ⦃f : Float R⦄ where
  -- The refresh is forced; `show` reads the stats of the pool after it.
  unfoldable pub handle_account_refresh :
      (now later : ℕ) (id : Str)
      → Fetched R
      → (show : Pool R → List (AccountStat R)) → Pool R
      → Pool R × RefreshAnswer R
  handle_account_refresh now later id fetched show p = elim (get id p) [
    | none ↦ (p, unknown_account)
    | some e ↦
        let (e', outcome) = refresh_limits now true fetched e in
        let p' = add e' p in
        elim outcome [
          | skipped ↦ (p', refreshed_to (view_of now later id (show p')))
          | failed ↦ (p, refresh_failed)
          | stored ↦ (p', refreshed_to (view_of now later id (show p')))
        ]
  ]

pub record TokenInfo : Type 0 where
  pub email : Str
  pub name : Str
  pub plan : Str
  pub plan_exp : ℤ

pub data Parsed : Type 0 where
  empty_token not_a_jwt bad_payload expired no_email : Parsed
  wrong_type : Str → Parsed
  accepted : TokenInfo → Parsed

-- The conversion of a JSON number's float64, and `strconv.ParseInt`.
pub record Numbers : Type 0 where
  pub to_int64 : Str → ℤ
  pub parse_int : Str → Option ℤ

unfoldable pub numeric_claim : Numbers → Option Json → Option ℤ
numeric_claim n (some (number x)) = some (n.to_int64 x)
numeric_claim n (some (string s)) = n.parse_int s
numeric_claim n _ = none

unfoldable pub first_non_empty : List Str → Str
first_non_empty [] = []
first_non_empty (s ∷ rest) = if is_empty s then first_non_empty rest else s

unfoldable pub is_over : Numbers → (now : ℕ) → Fields → Bool
is_over n now claims = elim (numeric_claim n (field_of (str "exp") claims)) [
  | none ↦ false
  | some exp ↦ ltb_ℤ (pos 0) exp && leb_ℤ exp (pos now)
]

unfoldable pub is_other_type : Str → Bool
is_other_type kind = not (is_empty kind) && not (kind == str "refresh")

-- The identity in the claims, and the plan.
unfoldable pub read_claims : Numbers → Fields → Parsed
read_claims n claims =
    let email =
      first_non_empty
        (text_of (field_of (str "email") claims) ∷ text_of (field_of (str "sub") claims) ∷ []) in
    if is_empty email
    then no_email
    else accepted (record {
      email = email;
      name = text_of (field_of (str "name") claims);
      plan = text_of (field_of (str "plan") claims);
      plan_exp = elim (numeric_claim n (field_of (str "plan_exp") claims)) [
        | none ↦ pos 0
        | some z ↦ z
      ];
    })

-- A token that has three parts.
unfoldable pub has_three_parts : Str → Bool
has_three_parts token = elim (split_on 46 [] token) [ a ∷ b ∷ c ∷ [] ↦ true | _ ↦ false ]

-- `now` is in Unix seconds.
unfoldable pub parse_refresh_token : Primitives → Numbers → (now : ℕ) → (token : Str) → Parsed
parse_refresh_token lib n now token =
    let token' = trim_space token in
    if is_empty token'
    then empty_token
    else if not (has_three_parts token')
    then not_a_jwt
    else elim (jwt_claims lib token') [
      | none ↦ bad_payload
      | some claims ↦
          let kind = text_of (field_of (str "token_type") claims) in
          if is_other_type kind
          then wrong_type kind
          else if is_over n now claims
          then expired
          else read_claims n claims
    ]

pub data Added : Type 0 where
  refused : Parsed → Added
  write_failed pool_failed : Added
  added : Account → TokenInfo → Added

module _ {R S : Type 0} (cipher : Cipher) (client_ok : Account → Bool) where
  -- The pool is reloaded after the account was written.
  unfoldable pub join_pool : TokenInfo → Pool R → Result S Account → Database S × Pool R × Added
  join_pool info p (Result.failed db) = (db, p, write_failed)
  join_pool info p (returned db acc) =
      let (p', loaded) = reload client_ok (list_accounts cipher db) p in
      (db, p', if loaded then added acc info else pool_failed)

  -- What store and pool do with a token whose identity is known.
  unfoldable pub admit :
      (up : Bool) (id : Str) (now : ℕ) (token provider name_override : Str)
      → TokenInfo
      → Database S
      → Pool R
      → Database S × Pool R × Added
  admit up id now token provider name_override info db p =
      let provider' = if is_empty provider then str "manual" else provider in
      let name = first_non_empty (name_override ∷ info.name ∷ info.email ∷ []) in
      join_pool info p
        (add_account cipher up id now info.email name provider' (trim_space token) db)

  unfoldable pub add_parsed :
      (up : Bool) (id : Str) (now : ℕ) (token provider name_override : Str)
      → Parsed
      → Database S
      → Pool R
      → Database S × Pool R × Added
  add_parsed up id now token provider name_override (accepted info) db p =
      admit up id now token provider name_override info db p
  add_parsed up id now token provider name_override parsed db p = (db, p, refused parsed)

  -- `addAccount`; `id` is what `randomID` draws.
  unfoldable pub add_token :
      Primitives
      → Numbers
      → (up : Bool) (id : Str) (now : ℕ) (token provider name_override : Str) → Database S
      → Pool R
      → Database S × Pool R × Added
  add_token lib n up id now token provider name_override =
      add_parsed up id now token provider name_override (parse_refresh_token lib n now token)
