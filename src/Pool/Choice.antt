-- ===== src/Pool/Choice.antt =====
-- What `Pick` promises: an account that may serve, if there is one, and the affinity kept up to
-- date.
use mirasim2api.Base.{
  ℕ, ◌≤◌, ◌≡◌, refl, ◌↔◌, ◌⊎◌, inl, inr, Bool, true, false, Option, none, some, List, [], ◌∷◌, Str,
  arith, Bool-cases, Option-cases, ◌==◌, if◌then◌else◌, In, here, there, In-filter, In-filter_inv,
  Map, lookup, number_key, text_key,
}
use mathlib.Core.Option.{some-injective}
use mathlib.Core.Path.{subst}
use mirasim2api.Base.Float.{Float}
use mirasim2api.Pool.Entry.{Entry, usable, weight}
use mirasim2api.Pool.Sticky.{Pool, StickyEntry, remove_sticky, renew_sticky}
use mirasim2api.Pool.Pick.{
  excluded, is_empty, values, is_candidate, candidates, draw, pick_weighted, Affinity, misses,
  expired, hits, affinity, pick_new, pick,
}

module _ {R : Type 0} where
  -- Entries stand under their account's ID.
  abbrev pub Keyed : Map Str (Entry R) → Type 0
  Keyed m = (id : Str) (e : Entry R) → lookup id m ≡ some e → e.account.id ≡ id

  found_value :
      (b : Bool) (x e : Entry R) (xs : List (Entry R)) (o : Option (Entry R))
      → (o ≡ some e → In e xs)
      → (if b then some x else o) ≡ some e
      → In e (x ∷ xs)
  found_value true x e xs o rest h = rw (← some-injective x e h) here
  found_value false x e xs o rest h = there (rest h)

  In-values :
      (id : Str) (m : Map Str (Entry R)) {e : Entry R} → lookup id m ≡ some e → In e (values m)
  In-values id [] h = absurd (cc)
  In-values id ((k, x) ∷ m) {e} h =
      found_value (k == id) x e (values m) (lookup id m) (In-values id m) h

module _ {R : Type 0} ⦃f : Float R⦄ where
  -- Neither excluded nor out of service.
  abbrev pub IsAvailable : Map Str Bool → ℕ → Entry R → Type 0
  IsAvailable exclude now e = (excluded exclude e.account.id ≡ false) × (usable now e ≡ true)

  -- What the result says of the pool's entries.
  abbrev pub Offers : Map Str Bool → ℕ → Map Str (Entry R) → Option (Entry R) → Type 0
  Offers exclude now m none = (e : Entry R) → In e (values m) → ¬ IsAvailable exclude now e
  Offers exclude now m (some e) = In e (values m) × IsAvailable exclude now e

  is_candidate_iff :
      (exclude : Map Str Bool) (now : ℕ) (e : Entry R)
      → (is_candidate exclude now e ≡ true) ↔ IsAvailable exclude now e
  unfolding is_candidate
  is_candidate_iff exclude now e = ground arith

  either_In :
      (b : Bool) {x y : Entry R} {l : List (Entry R)} → In x l → In y l → In (if b then x else y) l
  either_In true h k = h
  either_In false h k = k

  draw-In : (r : R) (e : Entry R) (es : List (Entry R)) → In (draw r e es) (e ∷ es)
  unfolding draw
  draw-In r e [] = here
  draw-In r e (e' ∷ es) =
      let r' = f.sub r (weight e) in either_In (f.le r' f.zero) here (there (draw-In r' e' es))

  -- The weighted choice takes one of the candidates, and fails only where there is none.
  pick_weighted-In :
      (u : R) (l : List (Entry R)) {e : Entry R} → pick_weighted u l ≡ some e → In e l
  unfolding pick_weighted
  pick_weighted-In u [] h = absurd (cc)
  pick_weighted-In u (x ∷ l) {e} h = rw (← some-injective _ e h) (draw-In _ x l)

  pick_weighted-none : (u : R) (l : List (Entry R)) → pick_weighted u l ≡ none → l ≡ []
  unfolding pick_weighted
  pick_weighted-none u [] h = refl
  pick_weighted-none u (x ∷ l) h = ground arith

  module _ (u : R) (exclude : Map Str Bool) (key : Str) (now : ℕ) where
    none_left : (p : Pool R) → candidates exclude now p ≡ [] → Offers exclude now p.entries none
    unfolding candidates
    none_left p h e m a =
        let kept = In-filter (is_candidate exclude now) m ((is_candidate_iff exclude now e).1 a) in
        let gone = rw h at kept in elim gone [ ]

    one_offered :
        (p : Pool R) (e : Entry R)
        → In e (candidates exclude now p)
        → Offers exclude now p.entries (some e)
    unfolding candidates
    one_offered p e m =
        let (there_is, ok) = In-filter_inv (is_candidate exclude now) (values p.entries) m in
        (there_is, (is_candidate_iff exclude now e).0 ok)

    pick_new-Offers : (p : Pool R) → Offers exclude now p.entries (pick_new u exclude key now p).0
    unfolding pick_new
    pick_new-Offers p = elim (Option-cases (pick_weighted u (candidates exclude now p))) [
      | inl e ↦ rw (e, pick_new) (none_left p (pick_weighted-none u _ e))
      | inr (x, e) ↦ rw (e, pick_new) (one_offered p x (pick_weighted-In u _ e))
    ]

    -- An affinity hit is an entry in service under the key's account.
    pub affinity-hits :
        (p : Pool R) (se : StickyEntry) (e : Entry R)
        → affinity exclude key now p ≡ hits se e
        → (lookup key p.sticky ≡ some se)
          × (lookup se.account_id p.entries ≡ some e)
          × (excluded exclude se.account_id ≡ false)
          × (usable now e ≡ true)
          × (now ≤ se.expires_at)
    unfolding affinity
    affinity-hits p se e h = ground arith

    Affinity-cases :
        (a : Affinity R)
        → (a ≡ misses) ⊎ (a ≡ expired) ⊎ ((se : StickyEntry) × (e : Entry R) × (a ≡ hits se e))
    Affinity-cases misses = inl refl
    Affinity-cases expired = inr (inl refl)
    Affinity-cases (hits se e) = inr (inr (se, e, refl))

    -- The three ways through `Pick`.
    pub pick_cases :
        (P : Option (Entry R) × Pool R → Type 0) (p : Pool R)
        → P (pick_new u exclude key now p)
        → P (pick_new u exclude key now (remove_sticky key p))
        → ((se : StickyEntry) (e : Entry R)
            → affinity exclude key now p ≡ hits se e
            → P (some e, renew_sticky key se se.account_id now p))
        → P (pick u exclude key now p)
    unfolding pick
    pick_cases P p new dropped hit = elim (Bool-cases (is_empty key)) [
      | inl e ↦ rw e new
      | inr e ↦ rw e (elim (Affinity-cases (affinity exclude key now p)) [
        | inl a ↦ rw (a, pick) new
        | inr (inl a) ↦ rw (a, pick) dropped
        | inr (inr (se, x, a)) ↦ rw (a, pick) (hit se x a)
      ])
    ]

    pub entries-remove_sticky : (p : Pool R) → (remove_sticky key p).entries ≡ p.entries
    unfolding remove_sticky
    entries-remove_sticky p = ground arith

    -- Where entries stand under their account's ID, `Pick` returns an entry of the pool that is
    -- usable and not excluded, and returns none only if there is no such entry.
    pub pick-Offers :
        (p : Pool R) → Keyed p.entries → Offers exclude now p.entries (pick u exclude key now p).0
    pick-Offers p keyed =
        let q = remove_sticky key p in
        pick_cases (λ r. Offers exclude now p.entries r.0) p (pick_new-Offers p)
          (subst (λ m. Offers exclude now m (pick_new u exclude key now q).0)
            (entries-remove_sticky p) (pick_new-Offers q))
          λ se e h.
            let (_, found, kept, serves, _) = affinity-hits p se e h in
            (
              In-values se.account_id p.entries found,
              (rw (keyed se.account_id e found) kept, serves),
            )
