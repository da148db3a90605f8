-- ===== src/Gateway/Forward/Entries.antt =====
-- What an attempt leaves as it is in the pool: which accounts there are, under which keys, and
-- how many requests each of them serves.
use mirasim2api.Base.{
  ◌≡◌, refl, sym, ◌∙◌, ap, true, Option, none, some, List, [], ◌∷◌, Str, arith, Option-cases,
  Bool-cases, inl, inr, ◌==◌, ==_iff, if◌then◌else◌, Map, lookup, insert, lookup-insert, text_key,
}
use mirasim2api.Base.Int.{ℤ, pos, negsuc, ◌+ℤ◌, +ℤ_back}
use mirasim2api.Pool.Entry.{Entry, release}
use mirasim2api.Pool.Sticky.{Pool}
use mirasim2api.Pool.Choice.{Keyed}
use mirasim2api.Gateway.Attempt.{on_entry}

module _ {R : Type 0} where
  -- The accounts' IDs in iteration order.
  abbrev pub ids : Map Str (Entry R) → List Str
  ids [] = []
  ids ((k, e) ∷ m) = e.account.id ∷ ids m

  abbrev pub load_in : Option (Entry R) → Option ℤ
  load_in none = none
  load_in (some e) = some e.inflight

  -- How many requests the entry under a key serves.
  abbrev pub load : Str → Map Str (Entry R) → Option ℤ
  load j m = load_in (lookup j m)

  abbrev pub Shape : Map Str (Entry R) → Map Str (Entry R) → Type 0
  Shape m m' = (ids m' ≡ ids m) × (Keyed m → Keyed m')

  pub Shape-trans : (a b c : Map Str (Entry R)) → Shape a b → Shape b c → Shape a c
  Shape-trans a b c (h, k) (h', k') = (h' ∙ h, λ x. k' (k x))

  abbrev pub Loads : Map Str (Entry R) → Map Str (Entry R) → Type 0
  Loads m m' = (j : Str) → load j m' ≡ load j m

  pub Loads-trans : (a b c : Map Str (Entry R)) → Loads a b → Loads b c → Loads a c
  Loads-trans a b c h h' j = h' j ∙ h j

  ids-insert :
      (id : Str) (e x : Entry R) (m : Map Str (Entry R))
      → lookup id m ≡ some e
      → x.account.id ≡ e.account.id
      → ids (insert id x m) ≡ ids m
  ids-insert id e x [] h k = absurd (cc)
  ids-insert id e x ((j, y) ∷ m) h k = elim (Bool-cases (j == id)) [
    | inl c ↦
        let same : y ≡ e = ground arith in
        rw c (ap (λ z. z ∷ ids m) (k ∙ ap (λ z. z.account.id) (sym same)))
    | inr c ↦ rw c (ap (λ l. y.account.id ∷ l) (ids-insert id e x m (ground arith) k))
  ]

  -- A change that keeps the account's ID keeps the shape.
  module _ (id : Str) (change : Entry R → Entry R) (p : Pool R) where
    pub on_entry-Shape :
        ((e : Entry R) → (change e).account.id ≡ e.account.id)
        → Shape p.entries (on_entry id change p).entries
    unfolding on_entry
    on_entry-Shape same = elim (Option-cases (lookup id p.entries)) [
      | inl h ↦ rw (h, on_entry) (refl, λ k. k)
      | inr (e, h) ↦
          rw (h, on_entry)
            (
              ids-insert id e (change e) p.entries h (same e),
              λ keyed j x found. ground (
                arith,
                lookup-insert id j (change e) p.entries,
                ==_iff id j,
                keyed id e h,
                keyed j x,
                same e,
              ),
            )
    ]

    -- What the change does to the count of requests shows under the key, and nowhere else.
    pub load-on_entry :
        (j : Str)
        → load j (on_entry id change p).entries ≡ (
            if id == j
            then elim (lookup id p.entries) [ none ↦ none | some e ↦ some (change e).inflight ]
            else load j p.entries)
    unfolding on_entry
    load-on_entry j = elim (Option-cases (lookup id p.entries)) [
      | inl h ↦ ground (arith, ==_iff id j)
      | inr (e, h) ↦ ground (arith, lookup-insert id j (change e) p.entries, ==_iff id j)
    ]

    pub on_entry-Loads :
        ((e : Entry R) → (change e).inflight ≡ e.inflight)
        → Loads p.entries (on_entry id change p).entries
    on_entry-Loads same j = elim (Option-cases (lookup id p.entries)) [
      | inl h ↦ ground (arith, load-on_entry j, ==_iff id j)
      | inr (e, h) ↦ ground (arith, load-on_entry j, ==_iff id j, same e)
    ]

  abbrev pub taken : Entry R → Entry R
  taken x = record x { inflight = x.inflight +ℤ pos 1 }

  -- Taking a slot and giving it back, with changes between that keep the counts.
  pub taken-release :
      (id : Str) (p q : Pool R)
      → Loads (on_entry id taken p).entries q.entries
      → Loads p.entries (on_entry id release q).entries
  unfolding release
  taken-release id p q between j = rw (load-on_entry id release q j) (elim (Bool-cases (id == j)) [
    | inl c ↦ rw c (given_back j c)
    | inr c ↦ rw c (between j ∙ ground (arith, load-on_entry id taken p j))
  ])
    where
      given_back :
          (j : Str)
          → (id == j) ≡ true
          → elim (lookup id q.entries) [ none ↦ none | some e ↦ some (e.inflight +ℤ negsuc 0) ]
            ≡ load j p.entries
      given_back j c = elim (Option-cases (lookup id p.entries)) [
        | inl h ↦ ground (arith, between id, load-on_entry id taken p id, ==_iff id j, ==_iff id id)
        | inr (e, h) ↦ ground (
          arith,
          between id,
          load-on_entry id taken p id,
          ==_iff id j,
          ==_iff id id,
          +ℤ_back e.inflight,
        )
      ]
