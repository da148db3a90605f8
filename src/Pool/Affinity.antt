-- ===== src/Pool/Affinity.antt =====
-- What `Pick` does to the pool: no entry changes, the affinity map stays tidy, and a session keeps
-- its account.
use mirasim2api.Base.{
  ℕ, ◌+◌, ◌≤◌, ◌≡◌, refl, sym, ◌∙◌, inl, inr, Bool, true, false, not, Option, none, some, List, [],
  ◌∷◌, Str, arith, Bool-cases, Option-cases, ◌==◌, ==_iff, all_b, length, Map, lookup,
  lookup-insert, number_key, text_key,
}
use mathlib.Core.Option.{some-injective}
use mirasim2api.Base.Float.{Float}
use mirasim2api.Pool.Entry.{Entry, usable}
use mirasim2api.Pool.Sticky.{
  Pool, StickyEntry, sticky_ttl, sticky_max_entries, remove_sticky, renew_sticky,
}
use mirasim2api.Pool.Sticky.Invariant.{remove_sticky-Linked, renew_sticky-Linked, renewed}
use mirasim2api.Pool.Sticky.Bound.{
  IsTidy, set_sticky_lem, entries-set_sticky, remove_sticky_bound, renew_sticky_bound,
  lookup-set_sticky_self,
}
use mirasim2api.Pool.Spares.{pick-Spares}
use mirasim2api.Pool.Choice.{Keyed, affinity-hits, pick_cases, entries-remove_sticky}
use mirasim2api.Pool.Pick.{excluded, is_empty, candidates, pick_weighted, affinity, pick_new, pick}

module _ {R : Type 0} ⦃f : Float R⦄ where
  module _ (u : R) (exclude : Map Str Bool) (key : Str) (now : ℕ) where
    entries-pick_new : (p : Pool R) → (pick_new u exclude key now p).1.entries ≡ p.entries
    unfolding pick_new
    entries-pick_new p = elim (Option-cases (pick_weighted u (candidates exclude now p))) [
      | inl e ↦ rw (e, pick_new)
      | inr (x, e) ↦ rw (e, pick_new) (ground (arith, entries-set_sticky key x.account.id now p))
    ]

    -- `Pick` touches no entry.
    pub entries-pick : (p : Pool R) → (pick u exclude key now p).1.entries ≡ p.entries
    unfolding renew_sticky
    entries-pick p =
        pick_cases u exclude key now (λ r. r.1.entries ≡ p.entries) p (entries-pick_new p)
          (entries-pick_new (remove_sticky key p) ∙ entries-remove_sticky u exclude key now p)
          (λ se e h. refl)

    pick_new-IsTidy : (p : Pool R) → IsTidy p → IsTidy (pick_new u exclude key now p).1
    unfolding pick_new
    pick_new-IsTidy p (v, b) = elim (Option-cases (pick_weighted u (candidates exclude now p))) [
      | inl e ↦ rw (e, pick_new) (v, b)
      | inr (x, e) ↦
          rw (e, pick_new)
            (elim (Bool-cases (is_empty key)) [
              | inl k ↦ rw k (v, b)
              | inr k ↦ rw k (set_sticky_lem key x.account.id now p v b)
            ])
    ]

    -- Where the affinity map is linked to its list and within its bound, it stays so.
    pub pick-IsTidy : (p : Pool R) → IsTidy p → IsTidy (pick u exclude key now p).1
    pick-IsTidy p (v, b) =
        pick_cases u exclude key now (λ r. IsTidy r.1) p (pick_new-IsTidy p (v, b))
          (pick_new-IsTidy (remove_sticky key p)
            (remove_sticky-Linked key p v, remove_sticky_bound key p b))
          λ se e h.
            let old = (affinity-hits u exclude key now p se e h).0 in
            (
              renew_sticky-Linked key se se.account_id now p old v,
              renew_sticky_bound key se se.account_id now p old b,
            )

    -- A result under a key leaves the key pointed to the account for the affinity period.
    abbrev Points : Option (Entry R) × Pool R → Type 0
    Points (none, q) = Unit
    Points (some e, q) =
        (se : StickyEntry) × (lookup key q.sticky ≡ some se)
        × (se.account_id ≡ e.account.id)
        × (se.expires_at ≡ now + sticky_ttl)

    pick_new-Points : (p : Pool R) → is_empty key ≡ false → Points (pick_new u exclude key now p)
    unfolding pick_new
    pick_new-Points p k = elim (Option-cases (pick_weighted u (candidates exclude now p))) [
      | inl e ↦ rw (e, pick_new) tt
      | inr (x, e) ↦ rw (e, pick_new) (rw k (lookup-set_sticky_self key x.account.id now p))
    ]

    renew_sticky-Points :
        (se : StickyEntry) (e : Entry R) (p : Pool R)
        → lookup key p.sticky ≡ some se
        → e.account.id ≡ se.account_id
        → Points (some e, renew_sticky key se se.account_id now p)
    unfolding renew_sticky
    renew_sticky-Points se e p old same = (
      renewed se se.account_id now,
      ground (arith, lookup-insert key key (renewed se se.account_id now) p.sticky, ==_iff key key),
      sym same,
      refl,
    )

    pick-Points :
        (p : Pool R) → Keyed p.entries → is_empty key ≡ false → Points (pick u exclude key now p)
    pick-Points p keyed k =
        pick_cases u exclude key now Points p (pick_new-Points p k)
          (pick_new-Points (remove_sticky key p) k)
          λ se e h.
            let (old, found, _, _, _) = affinity-hits u exclude key now p se e h in
            renew_sticky-Points se e p old (keyed se.account_id e found)

module _ {R : Type 0} ⦃f : Float R⦄ where
  -- A later pick under a key that points to an account in service returns that account.
  pick_pointed :
      (u : R) (exclude : Map Str Bool) (key : Str) (now : ℕ) (p : Pool R) (se : StickyEntry)
      (e : Entry R)
      → is_empty key ≡ false
      → lookup key p.sticky ≡ some se
      → lookup se.account_id p.entries ≡ some e
      → now ≤ se.expires_at
      → excluded exclude se.account_id ≡ false
      → usable now e ≡ true
      → (pick u exclude key now p).0 ≡ some e
  unfolding pick affinity
  pick_pointed u exclude key now p se e k found there_is fresh kept serves = ground arith

-- One pick, and what the entries are after it.
pub record PickThen (R : Type 0) : Type 0 where
  pub u : R
  pub exclude : Map Str Bool
  pub key : Str
  pub now : ℕ
  pub entries : Map Str (Entry R)

module _ {R : Type 0} ⦃f : Float R⦄ where
  abbrev pub pick_then : PickThen R → Pool R → Pool R
  pick_then o p = record (pick o.u o.exclude o.key o.now p).1 { entries = o.entries }

  -- The pool after some picks, each with whatever happens to the entries before the next.
  abbrev pub picks_then : List (PickThen R) → Pool R → Pool R
  picks_then [] p = p
  picks_then (o ∷ os) p = picks_then os (pick_then o p)

  lookup-picks_then :
      (os : List (PickThen R)) (key : Str) (p : Pool R)
      → all_b (λ o. not (o.key == key)) os ≡ true
      → length p.sticky + length os ≤ sticky_max_entries
      → lookup key (picks_then os p).sticky ≡ lookup key p.sticky
  lookup-picks_then [] key p others room = refl
  lookup-picks_then (o ∷ os) key p others room =
      let (same, longer) =
        pick-Spares o.u o.exclude o.key o.now key p (ground arith) (omega arith) in
      lookup-picks_then os key (pick_then o p) (ground arith) (omega arith) ∙ same

  -- Session affinity, where entries stand under their account's ID. After a pick under a key come
  -- picks under other keys, no more than the affinity map still has room for, and whatever else
  -- happens to the entries. Then the next pick under the key, within ten minutes of the first, returns
  -- what now stands under the account that was picked, whatever the random draw, if it is usable and
  -- not excluded.
  pub pick_again :
      (u u' : R) (exclude exclude' : Map Str Bool) (key : Str) (now now' : ℕ) (p : Pool R)
      (e e' : Entry R) (after : Map Str (Entry R)) (others : List (PickThen R))
      → Keyed p.entries
      → is_empty key ≡ false
      → (pick u exclude key now p).0 ≡ some e
      → now' ≤ now + sticky_ttl
      → all_b (λ o. not (o.key == key)) others ≡ true
      → let q = record (pick u exclude key now p).1 { entries = after } in
        length q.sticky + length others ≤ sticky_max_entries
        → lookup e.account.id (picks_then others q).entries ≡ some e'
        → excluded exclude' e.account.id ≡ false
        → usable now' e' ≡ true
        → (pick u' exclude' key now' (picks_then others q)).0 ≡ some e'
  pick_again u u' exclude exclude' key now now' p e e' after others keyed k picked soon apart room
        there_is kept serves =
      let r = pick u exclude key now p in
      let q = record (r.1) { entries = after } in
      let (se, found, same, till) = points r picked (pick-Points u exclude key now p keyed k) in
      pick_pointed u' exclude' key now' (picks_then others q) se e' k
        (lookup-picks_then others key q apart room ∙ found) (rw same there_is) (rw till soon)
        (rw same kept) serves
    where
      points :
          (r : Option (Entry R) × Pool R)
          → r.0 ≡ some e
          → Points u exclude key now r
          → (se : StickyEntry) × (lookup key r.1.sticky ≡ some se)
            × (se.account_id ≡ e.account.id)
            × (se.expires_at ≡ now + sticky_ttl)
      points (none, q) h w = absurd (cc)
      points (some x, q) h w = rw (← some-injective x e h) w
