-- ===== src/Base/Lists.antt =====
-- Lists measured by native numbers, Boolean filters and membership.
use Prim.Native.Nat.{ℕ, zero, suc, ◌+◌, ◌-◌, ◌≤◌, min}
use mathlib.Core.Path.{◌≡◌, refl, sym, ap, ◌∙◌}
use mathlib.Core.Logic.{◌⊎◌, inl, inr}
use mathlib.Core.Bool.{Bool, true, false, ◌&&◌, false≢true}
use mathlib.Core.List.{List, [], ◌∷◌, ◌++◌}
use native.Mathlib.Omega.{arith}
use mirasim2api.Base.Tests.{if◌then◌else◌}

module _ {ℓ} {A : Type ℓ} where
  abbrev pub length : List A → ℕ
  length [] = 0
  length (x ∷ xs) = suc (length xs)

  abbrev pub take : ℕ → List A → List A
  take zero xs = []
  take (suc n) [] = []
  take (suc n) (x ∷ xs) = x ∷ take n xs

  abbrev pub drop : ℕ → List A → List A
  drop zero xs = xs
  drop (suc n) [] = []
  drop (suc n) (x ∷ xs) = drop n xs

  abbrev pub replicate : ℕ → A → List A
  replicate zero a = []
  replicate (suc n) a = a ∷ replicate n a

  abbrev pub filter : (A → Bool) → List A → List A
  filter p [] = []
  filter p (x ∷ xs) = if p x then x ∷ filter p xs else filter p xs

  -- How many elements pass a test.
  abbrev pub count : (A → Bool) → List A → ℕ
  count p [] = 0
  count p (x ∷ xs) = if p x then suc (count p xs) else count p xs

  pub length-append : (xs ys : List A) → length (xs ++ ys) ≡ length xs + length ys
  length-append [] ys = omega arith
  length-append (x ∷ xs) ys = omega (arith, length-append xs ys)

  pub length-filter : (p : A → Bool) (xs : List A) → length (filter p xs) ≡ count p xs
  length-filter p [] = refl
  length-filter p (x ∷ xs) = ground (arith, length-filter p xs)

  pub length-take : (n : ℕ) (xs : List A) → length (take n xs) ≡ min n (length xs)
  length-take zero xs = omega arith
  length-take (suc n) [] = omega arith
  length-take (suc n) (x ∷ xs) = omega (arith, length-take n xs)

  pub take-append : (xs ys : List A) → take (length xs) (xs ++ ys) ≡ xs
  take-append [] ys = refl
  take-append (x ∷ xs) ys = ap (λ l. x ∷ l) (take-append xs ys)

  pub drop-append : (xs ys : List A) → drop (length xs) (xs ++ ys) ≡ ys
  drop-append [] ys = refl
  drop-append (x ∷ xs) ys = drop-append xs ys

  pub take-drop : (n : ℕ) (xs : List A) → take n xs ++ drop n xs ≡ xs
  take-drop zero xs = refl
  take-drop (suc n) [] = refl
  take-drop (suc n) (x ∷ xs) = ap (λ l. x ∷ l) (take-drop n xs)

  pub length-drop : (n : ℕ) (xs : List A) → length (drop n xs) ≡ length xs - n
  length-drop zero xs = omega arith
  length-drop (suc n) [] = omega arith
  length-drop (suc n) (x ∷ xs) = omega (arith, length-drop n xs)

  take_nil : (n : ℕ) → take n [] ≡ []
  take_nil zero = refl
  take_nil (suc n) = refl

  drop_nil : (n : ℕ) → drop n [] ≡ []
  drop_nil zero = refl
  drop_nil (suc n) = refl

  pub take-drop-take : (n m : ℕ) (xs : List A) → take n xs ++ take m (drop n xs) ≡ take (n + m) xs
  take-drop-take zero m xs = let e : m ≡ 0 + m = omega arith in ap (λ k. take k xs) e
  take-drop-take (suc n) m [] = take_nil m ∙ sym (take_nil (suc n + m))
  take-drop-take (suc n) m (x ∷ xs) =
      let e : suc (n + m) ≡ suc n + m = omega arith in
      ap (λ l. x ∷ l) (take-drop-take n m xs) ∙ ap (λ k. take k (x ∷ xs)) e

  pub drop-drop : (n m : ℕ) (xs : List A) → drop m (drop n xs) ≡ drop (n + m) xs
  drop-drop zero m xs = let e : m ≡ 0 + m = omega arith in ap (λ k. drop k xs) e
  drop-drop (suc n) m [] = drop_nil m ∙ sym (drop_nil (suc n + m))
  drop-drop (suc n) m (x ∷ xs) =
      let e : suc (n + m) ≡ suc n + m = omega arith in
      drop-drop n m xs ∙ ap (λ k. drop k (x ∷ xs)) e

  pub take_all : (n : ℕ) (xs : List A) → length xs ≤ n → take n xs ≡ xs
  take_all zero [] h = refl
  take_all zero (x ∷ xs) h = absurd (omega arith)
  take_all (suc n) [] h = refl
  take_all (suc n) (x ∷ xs) h = ap (λ l. x ∷ l) (take_all n xs (omega arith))

  pub count-append : (p : A → Bool) (xs ys : List A) → count p (xs ++ ys) ≡ count p xs + count p ys
  count-append p [] ys = omega arith
  count-append p (x ∷ xs) ys = ground (arith, count-append p xs ys)

  pub filter-append :
      (p : A → Bool) (xs ys : List A) → filter p (xs ++ ys) ≡ filter p xs ++ filter p ys
  filter-append p [] ys = refl
  filter-append p (x ∷ xs) ys = ground (arith, filter-append p xs ys)

-- Where an element stands in a list, and what holds of every element.
module _ {ℓ} {A : Type ℓ} where
  pub data In (a : A) : List A → Type ℓ where
    here : {xs : List A} → In a (a ∷ xs)
    there : {x : A} {xs : List A} → In a xs → In a (x ∷ xs)

  abbrev pub All {κ} : (A → Type κ) → List A → Type κ
  All P [] = Unit
  All P (x ∷ xs) = P x × All P xs

  pub All-In {κ} : (P : A → Type κ) {a : A} {xs : List A} → In a xs → All P xs → P a
  All-In P here h = h.0
  All-In P (there m) h = All-In P m h.1

  -- The same by a test on every element.
  abbrev pub all_b : (A → Bool) → List A → Bool
  all_b p [] = true
  all_b p (x ∷ xs) = p x && all_b p xs

  pub all_b-In : (p : A → Bool) {a : A} {xs : List A} → In a xs → all_b p xs ≡ true → p a ≡ true
  all_b-In p here h = ground arith
  all_b-In p (there m) h = all_b-In p m (ground arith)

  pub all_b-intro :
      (p : A → Bool) (xs : List A) → ((x : A) → In x xs → p x ≡ true) → all_b p xs ≡ true
  all_b-intro p [] h = refl
  all_b-intro p (x ∷ xs) h =
      let rest = all_b-intro p xs (λ y m. h y (there m)) in ground (arith, h x here, rest)

  keep_head : (b : Bool) (a : A) (xs : List A) → b ≡ true → In a (if b then a ∷ xs else xs)
  keep_head true a xs h = here
  keep_head false a xs h = elim (false≢true h) [ ]

  keep_tail : (b : Bool) (x : A) {a : A} {xs : List A} → In a xs → In a (if b then x ∷ xs else xs)
  keep_tail true x m = there m
  keep_tail false x m = m

  pub In-filter : (p : A → Bool) {a : A} {xs : List A} → In a xs → p a ≡ true → In a (filter p xs)
  In-filter p {a} (here {xs}) h = keep_head (p a) a (filter p xs) h
  In-filter p (there {x} {xs} m) h = keep_tail (p x) x (In-filter p m h)

  split_kept :
      (b : Bool) (x : A) {a : A} (xs : List A)
      → In a (if b then x ∷ xs else xs)
      → In a xs ⊎ ((b ≡ true) × (a ≡ x))
  split_kept true x xs here = inr (refl, refl)
  split_kept true x xs (there m) = inl m
  split_kept false x xs m = inl m

  -- What a filter keeps was there, and passes the test.
  pub In-filter_inv :
      (p : A → Bool) {a : A} (xs : List A) → In a (filter p xs) → In a xs × (p a ≡ true)
  In-filter_inv p [] m = elim m [ ]
  In-filter_inv p (x ∷ xs) m = elim (split_kept (p x) x (filter p xs) m) [
    | inl old ↦ let (i, t) = In-filter_inv p xs old in (there i, t)
    | inr (t, e) ↦ rw e (here, t)
  ]
