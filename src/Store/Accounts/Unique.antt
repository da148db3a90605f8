-- ===== src/Store/Accounts/Unique.antt =====
-- Rows whose IDs are unique: what the statements do to the reading of one.
use mirasim2api.Base.{
  ℕ, ◌≡◌, refl, ◌∙◌, not, Option, none, some, List, [], ◌∷◌, ◌++◌, inl, inr, Str, arith, ◌==◌,
  ==_iff, if◌then◌else◌, filter, Bool-cases, text_key, leb,
}
use mirasim2api.Store.Database.{AccountRow, update_where, select_one, place, order_by}
use mirasim2api.Store.Accounts.{has_id}

-- No ID stands twice: the primary key of the table.
abbrev pub UniqueIds : List AccountRow → Type 0
UniqueIds [] = Unit
UniqueIds (x ∷ xs) = (select_one (has_id x.id) xs ≡ none) × UniqueIds xs

pub select_one-place :
    (at : AccountRow → ℕ) (id : Str) (x : AccountRow) (ys : List AccountRow)
    → select_one (has_id x.id) ys ≡ none
    → select_one (has_id id) (place at x ys)
      ≡ (if x.id == id then some x else select_one (has_id id) ys)
unfolding place
select_one-place at id x [] h = refl
select_one-place at id x (y ∷ ys) h =
    ground (arith, select_one-place at id x ys, ==_iff x.id id, ==_iff y.id id, ==_iff y.id x.id)

pub select_one-order_by :
    (at : AccountRow → ℕ) (id : Str) (xs : List AccountRow)
    → UniqueIds xs
    → select_one (has_id id) (order_by at xs) ≡ select_one (has_id id) xs
unfolding order_by
select_one-order_by at id [] u = refl
select_one-order_by at id (x ∷ xs) u = ground (
  arith,
  select_one-place at id x (order_by at xs),
  select_one-order_by at id xs,
  select_one-order_by at x.id xs,
)

pub UniqueIds-place :
    (at : AccountRow → ℕ) (x : AccountRow) (ys : List AccountRow)
    → select_one (has_id x.id) ys ≡ none
    → UniqueIds ys
    → UniqueIds (place at x ys)
unfolding place
UniqueIds-place at x [] h u = (refl, tt)
UniqueIds-place at x (y ∷ ys) h u = elim (Bool-cases (leb (at x) (at y))) [
  | inl e ↦ rw e (h, u)
  | inr e ↦ rw e (
    ground (arith, select_one-place at y.id x ys, ==_iff x.id y.id, ==_iff y.id x.id),
    UniqueIds-place at x ys (ground (arith)) u.1,
  )
]

pub UniqueIds-order_by :
    (at : AccountRow → ℕ) (xs : List AccountRow) → UniqueIds xs → UniqueIds (order_by at xs)
unfolding order_by
UniqueIds-order_by at [] u = tt
UniqueIds-order_by at (x ∷ xs) u =
    UniqueIds-place at x (order_by at xs) (select_one-order_by at x.id xs u.1 ∙ u.0)
      (UniqueIds-order_by at xs u.1)

-- A change that leaves the ID.
abbrev pub KeepsId : (AccountRow → AccountRow) → Type 0
KeepsId change = (row : AccountRow) → (change row).id ≡ row.id

abbrev pub changed : (AccountRow → AccountRow) → Option AccountRow → Option AccountRow
changed change none = none
changed change (some row) = some (change row)

pub select_one-update_where :
    (change : AccountRow → AccountRow) (j id : Str) (xs : List AccountRow)
    → KeepsId change
    → select_one (has_id id) (update_where (has_id j) change xs)
      ≡ (if j == id then changed change (select_one (has_id id) xs) else select_one (has_id id) xs)
select_one-update_where change j id [] k = ground (arith)
select_one-update_where change j id (x ∷ xs) k = ground (
  arith,
  select_one-update_where change j id xs k,
  k x,
  ==_iff x.id id,
  ==_iff x.id j,
  ==_iff j id,
)

pub UniqueIds-update_where :
    (change : AccountRow → AccountRow) (j : Str) (xs : List AccountRow)
    → KeepsId change
    → UniqueIds xs
    → UniqueIds (update_where (has_id j) change xs)
UniqueIds-update_where change j [] k u = tt
UniqueIds-update_where change j (x ∷ xs) k u =
    let rest = UniqueIds-update_where change j xs k u.1 in
    let missing = select_one-update_where change j x.id xs k in
    elim (Bool-cases (has_id j x)) [
      | inl e ↦ rw (e, k x) (ground (arith, ==_iff j x.id), rest)
      | inr e ↦ rw e (ground (arith, ==_iff j x.id), rest)
    ]

pub select_one-filter :
    (j id : Str) (xs : List AccountRow)
    → select_one (has_id id) (filter (λ row. not (has_id j row)) xs)
      ≡ (if j == id then none else select_one (has_id id) xs)
select_one-filter j id [] = ground (arith)
select_one-filter j id (x ∷ xs) =
    ground (arith, select_one-filter j id xs, ==_iff x.id id, ==_iff x.id j, ==_iff j id)

pub UniqueIds-filter :
    (j : Str) (xs : List AccountRow)
    → UniqueIds xs
    → UniqueIds (filter (λ row. not (has_id j row)) xs)
UniqueIds-filter j [] u = tt
UniqueIds-filter j (x ∷ xs) u =
    let rest = UniqueIds-filter j xs u.1 in
    let missing = select_one-filter j x.id xs in
    elim (Bool-cases (has_id j x)) [
      | inl e ↦ rw e rest
      | inr e ↦ rw e (ground (arith, ==_iff j x.id), rest)
    ]

-- A row whose ID is new goes to the end.
pub select_one-append :
    (id : Str) (x : AccountRow) (xs : List AccountRow)
    → select_one (has_id id) xs ≡ none
    → select_one (has_id id) (xs ++ x ∷ []) ≡ (if x.id == id then some x else none)
select_one-append id x [] h = refl
select_one-append id x (y ∷ xs) h = ground (arith, select_one-append id x xs)

pub UniqueIds-append :
    (x : AccountRow) (xs : List AccountRow)
    → select_one (has_id x.id) xs ≡ none
    → UniqueIds xs
    → UniqueIds (xs ++ x ∷ [])
UniqueIds-append x [] h u = (refl, tt)
UniqueIds-append x (y ∷ xs) h u =
    let rest = UniqueIds-append x xs (ground arith) u.1 in
    (ground (arith, select_one-append y.id x xs, ==_iff x.id y.id, ==_iff y.id x.id), rest)

pub select_one-id :
    (id : Str) (xs : List AccountRow) (row : AccountRow)
    → select_one (has_id id) xs ≡ some row
    → row.id ≡ id
select_one-id id [] row h = absurd (cc)
select_one-id id (x ∷ xs) row h = ground (arith, select_one-id id xs row, ==_iff x.id id)
