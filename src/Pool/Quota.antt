-- ===== src/Pool/Quota.antt =====
-- What `usable` and `WorstUsedRatio` answer, window by window.
use mirasim2api.Base.{
  ℕ, ◌≤◌, ◌≡◌, refl, ◌↔◌, ◌⊎◌, true, false, Option, none, some, List, [], ◌∷◌, arith, Bool-cases,
  inl, inr, if◌then◌else◌, All, In, here, there,
}
use mirasim2api.Base.Float.{Float, NoNan}
use mirasim2api.Pool.Entry.{
  Entry, Limits, Window, ratio, worst_of, worst_used_ratio, limits_ok, usable,
}

module _ {R : Type 0} ⦃f : Float R⦄ where
  worst_of_grows :
      (a : R) (ws : List (Window R)) → (worst_of a ws ≡ a) ⊎ (f.lt a (worst_of a ws) ≡ true)
  unfolding worst_of
  worst_of_grows a [] = inl refl
  worst_of_grows a (w ∷ ws) = elim (Bool-cases (f.lt a (ratio w))) [
    | inl up ↦ rw up (elim (worst_of_grows (ratio w) ws) [
      | inl e ↦ inr (rw e up)
      | inr more ↦ inr (f.lt_trans a (ratio w) _ up more)
    ])
    | inr same ↦ rw same (worst_of_grows a ws)
  ]

  not_below : (a c : R) (ws : List (Window R)) → f.lt a c ≡ false → f.lt (worst_of a ws) c ≡ false
  not_below a c ws h = elim (worst_of_grows a ws) [
    | inl e ↦ rw e h
    | inr more ↦ ground (arith, f.lt_trans a (worst_of a ws) c more)
  ]

  -- No window is used beyond the ratio that the loop ends with.
  worst_of_bounds :
      (w : Window R) (ws : List (Window R)) (a : R)
      → In w ws
      → f.lt (worst_of a ws) (ratio w) ≡ false
  unfolding worst_of
  worst_of_bounds w [] a m = elim m [ ]
  worst_of_bounds w (x ∷ ws) a (there m) =
      worst_of_bounds w ws (if f.lt a (ratio x) then ratio x else a) m
  worst_of_bounds w (_ ∷ ws) a here = elim (Bool-cases (f.lt a (ratio w))) [
    | inl up ↦ rw up (not_below (ratio w) (ratio w) ws (f.lt_irrefl _))
    | inr same ↦ rw same (not_below a (ratio w) ws same)
  ]

  module _ (n : NoNan f) where
    below_max :
        (a r c : R)
        → (f.lt (if f.lt a r then r else a) c ≡ true) ↔ ((f.lt a c ≡ true) × (f.lt r c ≡ true))
    below_max a r c = ground (arith, f.lt_trans a r c, n.le_of_not_lt a r, n.lt_of_le_of_lt r a c)

    worst_of-lt :
        (a c : R) (ws : List (Window R))
        → (f.lt (worst_of a ws) c ≡ true)
          ↔ ((f.lt a c ≡ true) × All (λ w. f.lt (ratio w) c ≡ true) ws)
    unfolding worst_of
    worst_of-lt a c [] = (λ h. (h, tt), λ h. h.0)
    worst_of-lt a c (w ∷ ws) =
        let m = if f.lt a (ratio w) then ratio w else a in
        let (to, from) = worst_of-lt m c ws in
        let (split, join) = below_max a (ratio w) c in
        (
          λ h. let (k, rest) = to h in ((split k).0, ((split k).1, rest)),
          λ h. from (join (h.0, h.1.0), h.1.1),
        )

    -- What a snapshot has to say for the account to serve.
    abbrev pub HasQuota : Option (Limits R) → Type 0
    HasQuota none = Unit
    HasQuota (some l) = (l.suspended ≡ false) × All (λ w. f.lt (ratio w) f.one ≡ true) l.windows

    limits_ok_iff : (o : Option (Limits R)) → (limits_ok o ≡ true) ↔ HasQuota o
    unfolding limits_ok worst_used_ratio
    limits_ok_iff none = ground arith
    limits_ok_iff (some l) =
        let worst = worst_of f.zero l.windows in
        let (to, from) = worst_of-lt f.zero f.one l.windows in
        (
          λ h.
              let t : f.lt worst f.one ≡ true = ground (arith, n.le_of_not_lt worst f.one) in
              (ground arith, (to t).1),
          λ h. ground (arith, from (n.zero_lt_one, h.1), n.not_le_of_lt worst f.one),
        )

    -- An account is usable exactly if it is enabled, its cooldown is over, and its last snapshot,
    -- if it has one, neither suspends it nor shows a window that is used up.
    pub usable_iff :
        (now : ℕ) (e : Entry R)
        → (usable now e ≡ true)
          ↔ ((e.account.enabled ≡ true) × (e.cooldown_until ≤ now) × HasQuota e.limits)
    unfolding usable
    usable_iff now e = ground (arith, limits_ok_iff e.limits)
