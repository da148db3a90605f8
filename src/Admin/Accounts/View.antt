-- ===== src/Admin/Accounts/View.antt =====
-- The flag that the admin API shows is the test by which Pick chooses.
use mirasim2api.Base.{ℕ, ◌≡◌, false, not, ◌&&◌, Option, none, some, Str, arith}
use mirasim2api.Base.Float.{Float, NoNan}
use mirasim2api.Base.Int.{ℤ}
use mirasim2api.Mirasim.Crypto.{Primitives}
use mirasim2api.Pool.Entry.{Account, Entry, Limits, worst_used_ratio, limits_ok, usable}
use mirasim2api.Pool.Stats.{stat_of}
use mirasim2api.Admin.Accounts.{stat_to_view}

module _ {R : Type 0} ⦃f : Float R⦄ (n : NoNan f) where
  shown_quota :
      (o : Option (Limits R))
      → (not (elim o [ none ↦ false | some l ↦ l.suspended ]) && f.lt (worst_used_ratio o) f.one)
        ≡ limits_ok o
  unfolding limits_ok
  shown_quota none = unfold worst_used_ratio in n.zero_lt_one
  shown_quota (some l) =
      let worst = worst_used_ratio (some l) in
      ground (arith, n.le_of_not_lt worst f.one, n.not_le_of_lt worst f.one)

  -- Where no ratio is NaN, the admin API shows an account as usable exactly when Pick may take it,
  -- by the same clock.
  pub stat_to_view_usable :
      (lib : Primitives) (to_int64 : Str → ℤ) (token_of : Account → Str) (now later : ℕ)
      (e : Entry R)
      → (stat_to_view now later (stat_of lib to_int64 token_of e)).usable ≡ usable now e
  unfolding stat_to_view stat_of usable
  stat_to_view_usable lib to_int64 token_of now later e = ground (arith, shown_quota e.limits)
