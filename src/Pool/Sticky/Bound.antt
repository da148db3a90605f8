-- ===== src/Pool/Sticky/Bound.antt =====
-- `setSticky` keeps the affinity map linked to its list and within its bound, and makes room by
-- dropping the least recently used key.
use mirasim2api.Base.{
  ℕ, zero, suc, ◌+◌, ◌≤◌, ◌<◌, ◌≡◌, refl, ◌≢◌, inl, inr, none, some, [], ◌∷◌, Str, arith,
  Bool-cases, Option-cases, ==_iff, ◌==◌, leb, if◌then◌else◌, length, Map, lookup, lookup-insert,
  lookup-erase, length-erase_lt, length-erase_le, length-insert_new, length-insert_old, number_key,
  text_key,
}
use mirasim2api.Pool.Sticky.{
  Pool, StickyEntry, sticky_max_entries, remove_sticky, make_room, push_sticky, renew_sticky,
  set_sticky, sticky_ttl,
}
use mirasim2api.Pool.Sticky.Invariant.{
  Linked, remove_sticky-Linked, renew_sticky-Linked, push_sticky-Linked, renewed, pushed,
}

module _ {R : Type 0} where
  abbrev pub IsBounded : Pool R → Type 0
  IsBounded p = length p.sticky ≤ sticky_max_entries

  -- The map is linked to its list and within its bound.
  abbrev pub IsTidy : Pool R → Type 0
  IsTidy p = Linked p × IsBounded p

  pub remove_sticky_bound : (key : Str) (p : Pool R) → IsBounded p → IsBounded (remove_sticky key p)
  unfolding remove_sticky
  remove_sticky_bound key p b = ground (arith, λ (se : StickyEntry). length-erase_le key p.sticky)

  -- An empty list goes with an empty map.
  no_entries :
      (p : Pool R) (m : Map Str StickyEntry)
      → Linked p
      → p.sticky ≡ m
      → p.lru ≡ []
      → length p.sticky ≡ 0
  no_entries p [] v e l = rw e
  no_entries p ((k, se) ∷ m) v e l = ground (arith, v.to_elem k se, ==_iff k k, ==_iff {K = ℕ} 0 0)

  length-remove_sticky :
      (key : Str) (p : Pool R) {se : StickyEntry}
      → lookup key p.sticky ≡ some se
      → length (remove_sticky key p).sticky < length p.sticky
  unfolding remove_sticky
  length-remove_sticky key p {se} e = rw (e, remove_sticky) (length-erase_lt key se p.sticky e)

  front_entry :
      (p : Pool R) {elem : ℕ} {key : Str} {rest : Map ℕ Str}
      → Linked p
      → p.lru ≡ (elem, key) ∷ rest
      → (se : StickyEntry) × (lookup key p.sticky ≡ some se) × (se.elem ≡ elem)
  front_entry p {elem} {key} v e = v.to_entry elem key (rw e (ground (arith, ==_iff elem elem)))

  pub renew_sticky_bound :
      (key : Str) (se : StickyEntry) (id : Str) (now : ℕ) (p : Pool R)
      → lookup key p.sticky ≡ some se
      → IsBounded p
      → IsBounded (renew_sticky key se id now p)
  unfolding renew_sticky
  renew_sticky_bound key se id now p e b =
      omega (arith, length-insert_old key (renewed se id now) se p.sticky e)

  push_sticky_bound :
      (key id : Str) (now : ℕ) (p : Pool R)
      → lookup key p.sticky ≡ none
      → length p.sticky < sticky_max_entries
      → IsBounded (push_sticky key id now p)
  unfolding push_sticky
  push_sticky_bound key id now p e room =
      omega (arith, length-insert_new key (pushed id now p.next_elem) p.sticky e)

  -- With fuel for every entry the loop ends by its test.
  make_room_ends :
      (fuel : ℕ) (p : Pool R) (l : Map ℕ Str)
      → Linked p
      → length p.sticky < fuel
      → p.lru ≡ l
      → Linked (make_room fuel p) × (length (make_room fuel p).sticky < sticky_max_entries)
  unfolding make_room
  make_room_ends zero p l v h e = absurd (omega arith)
  make_room_ends (suc fuel) p [] v h e = ground (arith, no_entries p p.sticky v refl e)
  make_room_ends (suc fuel) p ((elem, key) ∷ rest) v h e =
      let (se, found, _) = front_entry p v e in
      let q = remove_sticky key p in
      let shorter = length-remove_sticky key p found in
      elim (Bool-cases (leb sticky_max_entries (length p.sticky))) [
        | inl full ↦
            rw (full, e, make_room)
              (make_room_ends fuel q q.lru (remove_sticky-Linked key p v) (omega arith) refl)
        | inr room ↦ rw (room, make_room) (v, ground arith)
      ]

  -- What each removal keeps, the loop keeps.
  make_room_keeps :
      (P : Pool R → Type 0)
      → ((key : Str) (p : Pool R) → P p → P (remove_sticky key p))
      → (fuel : ℕ) (p : Pool R) (l : Map ℕ Str) → p.lru ≡ l
      → P p
      → P (make_room fuel p)
  unfolding make_room
  make_room_keeps P keep zero p l e h = h
  make_room_keeps P keep (suc fuel) p [] e h =
      elim (Bool-cases (leb sticky_max_entries (length p.sticky))) [
        | inl full ↦ rw (full, e, make_room) h
        | inr room ↦ rw (room, make_room) h
      ]
  make_room_keeps P keep (suc fuel) p ((elem, key) ∷ rest) e h =
      let q = remove_sticky key p in
      elim (Bool-cases (leb sticky_max_entries (length p.sticky))) [
        | inl full ↦
            rw (full, e, make_room) (make_room_keeps P keep fuel q q.lru refl (keep key p h))
        | inr room ↦ rw (room, make_room) h
      ]

  -- Nothing is dropped where there is room.
  pub make_room_idle :
      (fuel : ℕ) (p : Pool R) → length p.sticky < sticky_max_entries → make_room fuel p ≡ p
  unfolding make_room
  make_room_idle zero p h = refl
  make_room_idle (suc fuel) p h = ground arith

  pub lookup-remove_sticky :
      (key j : Str) (p : Pool R)
      → lookup j (remove_sticky key p).sticky ≡ (if key == j then none else lookup j p.sticky)
  unfolding remove_sticky
  lookup-remove_sticky key j p = elim (Option-cases (lookup key p.sticky)) [
    | inl e ↦ rw (e, remove_sticky) (ground (arith, ==_iff key j))
    | inr (se, e) ↦ rw (e, remove_sticky) (lookup-erase key j p.sticky)
  ]

  make_room_absent :
      (fuel : ℕ) (key : Str) (p : Pool R)
      → lookup key p.sticky ≡ none
      → lookup key (make_room fuel p).sticky ≡ none
  make_room_absent fuel key p h =
      make_room_keeps (λ q. lookup key q.sticky ≡ none)
        (λ j q e. ground (arith, lookup-remove_sticky j key q)) fuel p p.lru refl h

  entries-make_room : (fuel : ℕ) (p : Pool R) → (make_room fuel p).entries ≡ p.entries
  entries-make_room fuel p =
      make_room_keeps (λ q. q.entries ≡ p.entries) (λ j q e. unfold remove_sticky in ground arith)
        fuel p p.lru refl refl

  pub entries-set_sticky :
      (key id : Str) (now : ℕ) (p : Pool R) → (set_sticky key id now p).entries ≡ p.entries
  unfolding set_sticky push_sticky renew_sticky
  entries-set_sticky key id now p = ground (arith, entries-make_room (suc (length p.sticky)) p)

  -- `setSticky` keeps the map and the list linked and the map within its bound.
  pub set_sticky_lem :
      (key id : Str) (now : ℕ) (p : Pool R)
      → Linked p
      → IsBounded p
      → Linked (set_sticky key id now p) × IsBounded (set_sticky key id now p)
  unfolding set_sticky
  set_sticky_lem key id now p v b = elim (Option-cases (lookup key p.sticky)) [
    | inl new ↦
        let fuel = suc (length p.sticky) in
        let q = make_room fuel p in
        let (linked, room) = make_room_ends fuel p p.lru v (omega arith) refl in
        let absent = make_room_absent fuel key p new in
        rw (new, set_sticky)
          (
            push_sticky-Linked key id now q absent linked,
            push_sticky_bound key id now q absent room,
          )
    | inr (se, old) ↦
        rw (old, set_sticky)
          (renew_sticky-Linked key se id now p old v, renew_sticky_bound key se id now p old b)
  ]

  -- `setSticky` points the key to the account from `now` on.
  pub lookup-set_sticky_self :
      (key id : Str) (now : ℕ) (p : Pool R)
      → (se : StickyEntry) × (lookup key (set_sticky key id now p).sticky ≡ some se)
        × (se.account_id ≡ id)
        × (se.expires_at ≡ now + sticky_ttl)
  unfolding set_sticky push_sticky renew_sticky
  lookup-set_sticky_self key id now p = elim (Option-cases (lookup key p.sticky)) [
    | inl new ↦
        let q = make_room (suc (length p.sticky)) p in
        let se = pushed id now q.next_elem in
        (
          se,
          rw (new, set_sticky) (ground (arith, lookup-insert key key se q.sticky, ==_iff key key)),
          refl,
          refl,
        )
    | inr (se, old) ↦ (
      renewed se id now,
      rw (old, set_sticky)
          (ground (arith, lookup-insert key key (renewed se id now) p.sticky, ==_iff key key)),
      refl,
      refl,
    )
  ]

  others_after :
      (key id : Str) (now : ℕ) (p : Pool R) (elem : ℕ) (oldest : Str) (rest : Map ℕ Str)
      → Linked p
      → length p.sticky ≡ sticky_max_entries
      → p.lru ≡ (elem, oldest) ∷ rest
      → lookup key p.sticky ≡ none
      → (j : Str) → j ≢ key
      → lookup j (set_sticky key id now p).sticky
        ≡ (if oldest == j then none else lookup j p.sticky)
  unfolding set_sticky push_sticky make_room
  others_after key id now p elem oldest rest v full front new j ne =
      let q = remove_sticky oldest p in
      let (se, found, _) = front_entry p v front in
      let shorter = length-remove_sticky oldest p found in
      let idle = make_room_idle (length p.sticky) q (omega arith) in
      rw (new, set_sticky)
        (rw (full, front, make_room)
          (rw idle (
            ground (
              arith,
              lookup-insert key j (pushed id now q.next_elem) q.sticky,
              lookup-remove_sticky oldest j p,
              ==_iff key j,
            ))))

  -- A new key in a full map takes the place of the key at the front of the list, the least
  -- recently used one: it points to its account for the affinity period, the oldest key is gone,
  -- and every other key keeps its entry.
  pub set_sticky_evicts :
      (key id : Str) (now : ℕ) (p : Pool R) (elem : ℕ) (oldest : Str) (rest : Map ℕ Str)
      → Linked p
      → length p.sticky ≡ sticky_max_entries
      → p.lru ≡ (elem, oldest) ∷ rest
      → lookup key p.sticky ≡ none
      → ((se : StickyEntry) × (lookup key (set_sticky key id now p).sticky ≡ some se)
          × (se.account_id ≡ id)
          × (se.expires_at ≡ now + sticky_ttl))
        × ((j : Str)
            → j ≢ key
            → lookup j (set_sticky key id now p).sticky
              ≡ (if oldest == j then none else lookup j p.sticky))
  set_sticky_evicts key id now p elem oldest rest v full front new = (
    lookup-set_sticky_self key id now p,
    others_after key id now p elem oldest rest v full front new,
  )
