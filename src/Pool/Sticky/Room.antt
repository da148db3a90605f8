-- ===== src/Pool/Sticky/Room.antt =====
-- While the affinity map has room, what is done under one key leaves every other key's entry.
use mirasim2api.Base.{
  ℕ, suc, ◌≤◌, ◌<◌, ◌≡◌, inl, inr, false, none, some, Str, arith, Option-cases, ◌==◌, length,
  lookup, lookup-insert, length-erase_le, length-insert_new, length-insert_old, number_key,
  text_key,
}
use mirasim2api.Pool.Sticky.{
  Pool, StickyEntry, sticky_max_entries, remove_sticky, push_sticky, renew_sticky, set_sticky,
}
use mirasim2api.Pool.Sticky.Invariant.{renewed, pushed}
use mirasim2api.Pool.Sticky.Bound.{make_room_idle, lookup-remove_sticky}

module _ {R : Type 0} where
  -- The entry of `key` is the same in `q`, which holds one key more at most.
  abbrev pub Spares : Str → Pool R → Pool R → Type 0
  Spares key p q =
      (lookup key q.sticky ≡ lookup key p.sticky) × (length q.sticky ≤ suc (length p.sticky))

  pub renew_sticky-Spares :
      (key j id : Str) (se : StickyEntry) (now : ℕ) (p : Pool R)
      → (j == key) ≡ false
      → lookup j p.sticky ≡ some se
      → Spares key p (renew_sticky j se id now p)
  unfolding renew_sticky
  renew_sticky-Spares key j id se now p other old = (
    ground (arith, lookup-insert j key (renewed se id now) p.sticky),
    omega (arith, length-insert_old j (renewed se id now) se p.sticky old),
  )

  push_sticky-Spares :
      (key j id : Str) (now : ℕ) (p : Pool R)
      → (j == key) ≡ false
      → lookup j p.sticky ≡ none
      → Spares key p (push_sticky j id now p)
  unfolding push_sticky
  push_sticky-Spares key j id now p other new = (
    ground (arith, lookup-insert j key (pushed id now p.next_elem) p.sticky),
    omega (arith, length-insert_new j (pushed id now p.next_elem) p.sticky new),
  )

  pub set_sticky-Spares :
      (key j id : Str) (now : ℕ) (p : Pool R)
      → (j == key) ≡ false
      → length p.sticky < sticky_max_entries
      → Spares key p (set_sticky j id now p)
  unfolding set_sticky
  set_sticky-Spares key j id now p other room = elim (Option-cases (lookup j p.sticky)) [
    | inl new ↦
        rw (set_sticky, new, make_room_idle (suc (length p.sticky)) p room)
          (push_sticky-Spares key j id now p other new)
    | inr (se, old) ↦ rw (set_sticky, old) (renew_sticky-Spares key j id se now p other old)
  ]

  -- A removal under another key adds none.
  pub remove_sticky_spares :
      (key j : Str) (p : Pool R)
      → (j == key) ≡ false
      → (lookup key (remove_sticky j p).sticky ≡ lookup key p.sticky)
        × (length (remove_sticky j p).sticky ≤ length p.sticky)
  unfolding remove_sticky
  remove_sticky_spares key j p other = (
    ground (arith, lookup-remove_sticky j key p),
    ground (arith, λ (se : StickyEntry). length-erase_le j p.sticky),
  )
