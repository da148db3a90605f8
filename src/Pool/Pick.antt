-- ===== src/Pool/Pick.antt =====
-- internal/pool/pool.go: `Pool.Pick`. The draw of the random source is the argument `u`.
use mirasim2api.Base.{
  ℕ, Bool, true, false, not, ◌&&◌, ◌||◌, Option, none, some, List, [], ◌∷◌, Str, ltb, if◌then◌else◌,
  filter, Map, lookup, has, text_key,
}
use mirasim2api.Base.Float.{Float}
use mirasim2api.Pool.Entry.{Entry, usable, weight}
use mirasim2api.Pool.Sticky.{Pool, StickyEntry, remove_sticky, renew_sticky, set_sticky}

-- `exclude[id]` of a `map[string]bool` whose values are all true.
abbrev pub excluded : Map Str Bool → Str → Bool
excluded exclude id = has id exclude

abbrev pub is_empty : Str → Bool
is_empty [] = true
is_empty (c ∷ s) = false

-- What the affinity map says: nothing, an entry to drop, or an entry to use.
pub data Affinity (R : Type 0) : Type 0 where
  misses expired : Affinity R
  hits : StickyEntry → Entry R → Affinity R

module _ {R : Type 0} where
  -- The range loop: the entries' values in iteration order.
  abbrev pub values : Map Str (Entry R) → List (Entry R)
  values [] = []
  values ((k, e) ∷ m) = e ∷ values m

module _ {R : Type 0} ⦃f : Float R⦄ where
  unfoldable pub is_candidate : Map Str Bool → ℕ → Entry R → Bool
  is_candidate exclude now e = not (excluded exclude e.account.id || not (usable now e))

  unfoldable pub candidates : Map Str Bool → ℕ → Pool R → List (Entry R)
  candidates exclude now p = filter (is_candidate exclude now) (values p.entries)

  unfoldable pub total_weight : R → List (Entry R) → R
  total_weight total [] = total
  total_weight total (e ∷ es) = total_weight (f.add total (weight e)) es

  -- The loop that takes the weights off `r`, with the last candidate if none brings it to 0.
  unfoldable pub draw : R → Entry R → List (Entry R) → Entry R
  draw r e [] = e
  draw r e (e' ∷ es) =
      let r' = f.sub r (weight e) in let rest = draw r' e' es in if f.le r' f.zero then e else rest

  unfoldable pub pick_weighted : R → List (Entry R) → Option (Entry R)
  pick_weighted u [] = none
  pick_weighted u (e ∷ es) = some (draw (f.mul u (total_weight f.zero (e ∷ es))) e es)

  unfoldable pub affinity : Map Str Bool → Str → ℕ → Pool R → Affinity R
  affinity exclude key now p = elim (lookup key p.sticky) [
    | none ↦ misses
    | some se ↦ if ltb se.expires_at now then expired else elim (lookup se.account_id p.entries) [
      | none ↦ misses
      | some e ↦ if not (excluded exclude se.account_id) && usable now e then hits se e else misses
    ]
  ]

  -- The part of `Pick` below the affinity test.
  unfoldable pub pick_new : R → Map Str Bool → Str → ℕ → Pool R → Option (Entry R) × Pool R
  pick_new u exclude key now p = elim (pick_weighted u (candidates exclude now p)) [
    | none ↦ (none, p)
    | some e ↦ (some e, if is_empty key then p else set_sticky key e.account.id now p)
  ]

  unfoldable pub pick : R → Map Str Bool → Str → ℕ → Pool R → Option (Entry R) × Pool R
  pick u exclude key now p =
      if is_empty key then pick_new u exclude key now p else elim (affinity exclude key now p) [
        | misses ↦ pick_new u exclude key now p
        | expired ↦ pick_new u exclude key now (remove_sticky key p)
        | hits se e ↦ (some e, renew_sticky key se se.account_id now p)
      ]
