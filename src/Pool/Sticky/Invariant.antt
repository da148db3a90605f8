-- ===== src/Pool/Sticky/Invariant.antt =====
-- The affinity map and its LRU list hold the same keys, and each map entry points to its own list
-- element; so the loop that makes room ends, and the map never outgrows its bound.
use mirasim2api.Base.{
  ℕ, ◌+◌, ◌<◌, ◌≡◌, inl, inr, none, some, Str, arith, Bool-cases, Option-cases, ==_iff, ◌==◌, Map,
  lookup, erase, lookup-insert, lookup-erase, lookup-append, lookup-append_old, number_key,
  text_key,
}
use mirasim2api.Pool.Sticky.{
  Pool, StickyEntry, remove_sticky, push_sticky, renew_sticky, move_to_back, sticky_ttl,
}

abbrev pub renewed : StickyEntry → Str → ℕ → StickyEntry
renewed se id now = record se { account_id = id; expires_at = now + sticky_ttl }

abbrev pub pushed : Str → ℕ → ℕ → StickyEntry
pushed id now elem = record { account_id = id; expires_at = now + sticky_ttl; elem = elem }

-- A move to the back changes only the order.
pub lookup-move_to_back :
    (elem j : ℕ) (lru : Map ℕ Str) → lookup j (move_to_back elem lru) ≡ lookup j lru
unfolding move_to_back
lookup-move_to_back elem j lru = elim (Option-cases (lookup elem lru)) [
  | inl e ↦ rw (e, move_to_back)
  | inr (key, e) ↦
      rw (e, move_to_back)
        (elim (Option-cases (lookup j (erase elem lru))) [
          | inl gone ↦ ground (
            arith,
            lookup-append elem j key (erase elem lru) gone,
            lookup-erase elem j lru,
            ==_iff elem j,
          )
          | inr (k, kept) ↦
              ground (
                arith,
                lookup-append_old elem j key k (erase elem lru) kept,
                lookup-erase elem j lru,
              )
        ])
]

module _ {R : Type 0} where
  -- Map entries and list elements point to one another, and a new handle is new.
  pub record Linked (p : Pool R) : Type 0 where
    pub to_elem :
        (key : Str) (se : StickyEntry)
        → lookup key p.sticky ≡ some se
        → lookup se.elem p.lru ≡ some key
    pub to_entry :
        (elem : ℕ) (key : Str)
        → lookup elem p.lru ≡ some key
        → (se : StickyEntry) × (lookup key p.sticky ≡ some se) × (se.elem ≡ elem)
    pub new_elem : (elem : ℕ) (key : Str) → lookup elem p.lru ≡ some key → elem < p.next_elem

  drop_link :
      (key : Str) (se : StickyEntry) (p : Pool R)
      → lookup key p.sticky ≡ some se
      → Linked p
      → Linked (record p { sticky = erase key p.sticky; lru = erase se.elem p.lru })
  drop_link key se p e v = record {
    to_elem = λ k s h. ground (
      arith,
      lookup-erase key k p.sticky,
      lookup-erase se.elem s.elem p.lru,
      ==_iff se.elem s.elem,
      ==_iff key k,
      v.to_elem k s,
      v.to_elem key se e,
    );
    to_entry = λ elem k h. ground (
      arith,
      lookup-erase key k p.sticky,
      lookup-erase se.elem elem p.lru,
      ==_iff se.elem elem,
      ==_iff key k,
      v.to_entry elem k,
    );
    new_elem = λ elem k h. ground (arith, lookup-erase se.elem elem p.lru, v.new_elem elem k);
  }

  unused : (p : Pool R) → Linked p → lookup p.next_elem p.lru ≡ none
  unused p v = elim (Option-cases (lookup p.next_elem p.lru)) [
    | inl e ↦ e
    | inr (k, e) ↦ absurd (omega (arith, v.new_elem p.next_elem k e))
  ]

  pub remove_sticky-Linked : (key : Str) (p : Pool R) → Linked p → Linked (remove_sticky key p)
  unfolding remove_sticky
  remove_sticky-Linked key p v = elim (Option-cases (lookup key p.sticky)) [
    | inl e ↦ rw (e, remove_sticky) v
    | inr (se, e) ↦ rw (e, remove_sticky) (drop_link key se p e v)
  ]

  pub renew_sticky-Linked :
      (key : Str) (se : StickyEntry) (id : Str) (now : ℕ) (p : Pool R)
      → lookup key p.sticky ≡ some se
      → Linked p
      → Linked (renew_sticky key se id now p)
  unfolding renew_sticky
  renew_sticky-Linked key se id now p e v = record {
    to_elem = λ k s h. ground (
      arith,
      lookup-insert key k (renewed se id now) p.sticky,
      lookup-move_to_back se.elem s.elem p.lru,
      ==_iff key k,
      v.to_elem k s,
      v.to_elem key se e,
    );
    to_entry = λ elem k h.
        let old = rw (lookup-move_to_back se.elem elem p.lru) at h in
        let (s, found, same) = v.to_entry elem k old in
        elim (Bool-cases (key == k)) [
          | inl hit ↦ (
            renewed se id now,
            rw (lookup-insert key k (renewed se id now) p.sticky, hit),
            ground (arith, ==_iff key k),
          )
          | inr miss ↦ (s, rw (lookup-insert key k (renewed se id now) p.sticky, miss) found, same)
        ];
    new_elem = λ elem k h. v.new_elem elem k (rw (lookup-move_to_back se.elem elem p.lru) at h);
  }

  pub push_sticky-Linked :
      (key id : Str) (now : ℕ) (p : Pool R)
      → lookup key p.sticky ≡ none
      → Linked p
      → Linked (push_sticky key id now p)
  unfolding push_sticky
  push_sticky-Linked key id now p e v = record {
    to_elem = λ k s h. ground (
      arith,
      lookup-insert key k (pushed id now p.next_elem) p.sticky,
      lookup-append p.next_elem p.next_elem key p.lru (unused p v),
      lookup-append_old p.next_elem s.elem key k p.lru,
      ==_iff key k,
      ==_iff p.next_elem p.next_elem,
      v.to_elem k s,
    );
    to_entry = λ elem k h. elim (Option-cases (lookup elem p.lru)) [
      | inl fresh ↦ (
        pushed id now p.next_elem,
        ground (
          arith,
          lookup-insert key k (pushed id now p.next_elem) p.sticky,
          lookup-append p.next_elem elem key p.lru fresh,
          ==_iff key k,
        ),
        ground (arith, lookup-append p.next_elem elem key p.lru fresh, ==_iff p.next_elem elem),
      )
      | inr (k', old) ↦
          let (s, found, same) = v.to_entry elem k' old in
          (
            s,
            ground (
              arith,
              lookup-insert key k (pushed id now p.next_elem) p.sticky,
              lookup-append_old p.next_elem elem key k' p.lru old,
              ==_iff key k,
            ),
            same,
          )
    ];
    new_elem = λ elem k h. elim (Option-cases (lookup elem p.lru)) [
      | inl fresh ↦
          ground (arith, lookup-append p.next_elem elem key p.lru fresh, ==_iff p.next_elem elem)
      | inr (k', old) ↦ omega (arith, v.new_elem elem k' old)
    ];
  }
