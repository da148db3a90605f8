-- ===== src/Pool/Spares.antt =====
-- A pick under one key leaves every other key's affinity, while the map has room.
use mirasim2api.Base.{
  ℕ, ◌<◌, ◌≡◌, refl, ◌∙◌, inl, inr, Bool, false, Str, arith, Bool-cases, Option-cases, ◌==◌, length,
  Map, text_key,
}
use mirasim2api.Base.Float.{Float}
use mirasim2api.Pool.Sticky.{Pool, sticky_max_entries, remove_sticky}
use mirasim2api.Pool.Sticky.Room.{
  Spares, renew_sticky-Spares, set_sticky-Spares, remove_sticky_spares,
}
use mirasim2api.Pool.Choice.{affinity-hits, pick_cases}
use mirasim2api.Pool.Pick.{is_empty, candidates, pick_weighted, pick_new, pick}

module _ {R : Type 0} ⦃f : Float R⦄ where
  pick_new-Spares :
      (u : R) (exclude : Map Str Bool) (j : Str) (now : ℕ) (key : Str) (p : Pool R)
      → (j == key) ≡ false
      → length p.sticky < sticky_max_entries
      → Spares key p (pick_new u exclude j now p).1
  unfolding pick_new
  pick_new-Spares u exclude j now key p other room =
      elim (Option-cases (pick_weighted u (candidates exclude now p))) [
        | inl e ↦ rw (e, pick_new) (refl, omega arith)
        | inr (x, e) ↦
            rw (e, pick_new)
              (elim (Bool-cases (is_empty j)) [
                | inl k ↦ rw k (refl, omega arith)
                | inr k ↦ rw k (set_sticky-Spares key j x.account.id now p other room)
              ])
      ]

  -- A pick under another key, while there is room.
  pub pick-Spares :
      (u : R) (exclude : Map Str Bool) (j : Str) (now : ℕ) (key : Str) (p : Pool R)
      → (j == key) ≡ false
      → length p.sticky < sticky_max_entries
      → Spares key p (pick u exclude j now p).1
  pick-Spares u exclude j now key p other room =
      let q = remove_sticky j p in
      let (same, shorter) = remove_sticky_spares key j p other in
      let (kept, longer) = pick_new-Spares u exclude j now key q other (omega arith) in
      pick_cases u exclude j now (λ r. Spares key p r.1) p
        (pick_new-Spares u exclude j now key p other room) (kept ∙ same, omega arith)
        λ se e h.
          renew_sticky-Spares key j se.account_id se now p other
            (affinity-hits u exclude j now p se e h).0
