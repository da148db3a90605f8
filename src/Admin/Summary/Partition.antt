-- ===== src/Admin/Summary/Partition.antt =====
-- The counts of the dashboard: every account is in one of the states, and the usable ones are those
-- that the pool would hand out.
use mirasim2api.Base.{
  ℕ, suc, ◌+◌, ◌≡◌, refl, inl, inr, false, not, ◌||◌, List, [], ◌∷◌, arith, Option-cases,
  if◌then◌else◌, length, count,
}
use mirasim2api.Base.Float.{Float}
use mirasim2api.Pool.Entry.{Entry, usable, limits_ok, worst_used_ratio}
use mirasim2api.Admin.Summary.{
  AccountCounts, no_accounts, is_suspended, count_account, count_accounts,
}

abbrev pub out_of_service : AccountCounts → ℕ
out_of_service c = c.cooldown + c.suspended + c.exhausted

module _ {R : Type 0} ⦃f : Float R⦄ where
  -- A snapshot is in order where it neither suspends nor is used up; 1 is more than 0.
  limits_ok_iff :
      (e : Entry R)
      → f.le f.one f.zero ≡ false
      → limits_ok e.limits ≡ not (is_suspended e.limits || f.le f.one (worst_used_ratio e.limits))
  unfolding limits_ok worst_used_ratio
  limits_ok_iff e one = elim (Option-cases e.limits) [
    | inl h ↦ rw h (ground arith)
    | inr (l, h) ↦ rw h (ground arith)
  ]

  count_account_usable :
      (now : ℕ) (e : Entry R) (c : AccountCounts)
      → f.le f.one f.zero ≡ false
      → (count_account now e c).usable ≡ (if usable now e then suc c.usable else c.usable)
  unfolding count_account usable
  count_account_usable now e c one = ground (arith, limits_ok_iff e one)

  count_account_parts :
      (now : ℕ) (e : Entry R) (c : AccountCounts)
      → let d = count_account now e c in
        (d.enabled + d.disabled ≡ suc (c.enabled + c.disabled))
        × (d.usable + out_of_service d + c.enabled ≡ c.usable + out_of_service c + d.enabled)
  unfolding count_account
  count_account_parts now e c = ground arith

  parts :
      (now : ℕ) (es : List (Entry R)) (c : AccountCounts)
      → f.le f.one f.zero ≡ false
      → let d = count_accounts now es c in
        (d.enabled + d.disabled ≡ c.enabled + c.disabled + length es)
        × (d.usable + out_of_service d + c.enabled ≡ c.usable + out_of_service c + d.enabled)
        × (d.usable ≡ c.usable + count (usable now) es)
  unfolding count_accounts
  parts now [] c one = (omega arith, refl, omega arith)
  parts now (e ∷ es) c one =
      let (a, b, u) = parts now es (count_account now e c) one in
      let (x, y) = count_account_parts now e c in
      let z = count_account_usable now e c one in
      (omega (arith, a, x), omega (arith, b, y), ground (arith, u, z))

  -- Where 1 is not at most 0, of the accounts of the pool, the enabled and the disabled ones make up
  -- all; of the enabled ones, those that are usable, cooling down, suspended and used up make up all;
  -- and the usable ones are as many as `Pick` may take.
  pub count_accounts_lem :
      (now : ℕ) (es : List (Entry R))
      → f.le f.one f.zero ≡ false
      → let d = count_accounts now es no_accounts in
        (d.enabled + d.disabled ≡ length es)
        × (d.usable + out_of_service d ≡ d.enabled)
        × (d.usable ≡ count (usable now) es)
  count_accounts_lem now es one =
      let (a, b, u) = parts now es no_accounts one in
      (omega (arith, a), omega (arith, b), omega (arith, u))
