-- ===== src/Pool/Cooldown.antt =====
-- The backoff of an account that fails, and what the reports do to its availability.
use mirasim2api.Base.{
  ℕ, zero, suc, ◌+◌, ◌-◌, ◌*◌, ◌^◌, ◌%◌, ◌≤◌, ◌<◌, ◌≡◌, refl, Bool, true, false, ◌&&◌, arith,
  nat_beq, nat_beq_iff,
}
use Prim.Native.Nat.{min}
use native.Mathlib.Decide.{ℕ_discrete}
use native.Mathlib.Nat.{pow-suc, add-suc}
use mirasim2api.Base.Float.{Float}
use mirasim2api.Pool.Entry.{Entry, Failure, base_backoff, max_backoff, usable}
use mirasim2api.Pool.Report.{backoff, is_5xx, penalize, report_failure, report_success}

-- A test on the numbers from `k` on, as many as the first argument says.
checks : ℕ → ℕ → (ℕ → Bool) → Bool
checks zero k test = true
checks (suc rounds) k test = test k && checks rounds (suc k) test

checks_one :
    (rounds k : ℕ) (test : ℕ → Bool) (n : ℕ)
    → k ≤ n
    → n < k + rounds
    → checks rounds k test ≡ true
    → test n ≡ true
unfolding checks
checks_one zero k test n above below h = absurd (omega arith)
checks_one (suc rounds) k test n above below h = elim (ℕ_discrete k n) [
  | yes e ↦ rw (← e) (ground arith)
  | no ne ↦ checks_one rounds (suc k) test n (omega arith) (omega arith) (ground arith)
]

backoff_table :
    checks 55 0 (λ n. nat_beq (backoff (suc n)) (min (base_backoff * 2 ^ n) max_backoff)) ≡ true
unfolding checks backoff
backoff_table = refl

-- Up to the 55th failure in a row the backoff is 15 s, doubled for each further failure, at most ten
-- minutes.
pub backoff_doubles : (n : ℕ) → n < 55 → backoff (suc n) ≡ min (base_backoff * 2 ^ n) max_backoff
backoff_doubles n h =
    (nat_beq_iff _ _).0 (checks_one 55 0 _ n (omega arith) (omega arith) backoff_table)

overflow : (k : ℕ) → (base_backoff * 2 ^ (55 + k)) % 2 ^ 64 ≡ 0
overflow zero = refl
overflow (suc k) =
    let e : 2 ^ (55 + suc k) ≡ 2 ^ (55 + k) * 2 = rw (add-suc 55 k) (pow-suc 2 (55 + k)) in
    rw e (omega (arith, overflow k))

-- From the 56th failure in a row on the shift leaves no bit of the duration, and there is no backoff.
pub backoff_vanishes : (n : ℕ) → 55 ≤ n → backoff (suc n) ≡ 0
unfolding backoff
backoff_vanishes n h =
    let e : n ≡ 55 + (n - 55) = omega arith in
    let z : (base_backoff * 2 ^ n) % 2 ^ 64 ≡ 0 = rw e (overflow (n - 55)) in
    let s : suc n - 1 ≡ n = omega arith in rw (s, z)

module _ {R : Type 0} ⦃f : Float R⦄ where
  -- A server error (status 500 or above) changes no account's availability.
  pub report_failure_5xx :
      (now t : ℕ) (err : Failure) (e : Entry R)
      → is_5xx err ≡ true
      → (usable t (report_failure now err e).0 ≡ usable t e)
        × ((report_failure now err e).0.failures ≡ e.failures)
  unfolding report_failure penalize usable
  report_failure_5xx now t err e server = ground arith

  -- After 55 failures in a row a further failure ends every cooldown: the account is at once as
  -- usable as an account that never failed.
  pub report_failure_late :
      (now : ℕ) (err : Failure) (e : Entry R)
      → is_5xx err ≡ false
      → 55 ≤ e.failures
      → usable now (report_failure now err e).0 ≡ usable now (record e { cooldown_until = 0 })
  unfolding report_failure penalize usable
  report_failure_late now err e plain many = ground (arith, backoff_vanishes e.failures many)

  -- A success ends the cooldown and restarts the backoff: right after it the account is usable as
  -- far as its switch and quota allow, and the next failure that is no server error costs 15 s.
  pub report_success_resets :
      (now now' t : ℕ) (err : Failure) (e : Entry R)
      → is_5xx err ≡ false
      → let ok = (report_success now e).0 in
        (usable t ok ≡ usable t (record e { cooldown_until = 0 }))
        × ((report_failure now' err ok).0.cooldown_until ≡ now' + base_backoff)
  unfolding report_failure penalize report_success usable
  report_success_resets now now' t err e plain = ground (arith, backoff_doubles 0)
