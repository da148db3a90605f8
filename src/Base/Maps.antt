-- ===== src/Base/Maps.antt =====
-- Go's maps as association lists.
use Prim.Native.Nat.{suc, ◌≤◌, ◌<◌}
use mathlib.Core.Path.{◌≡◌, refl}
use mathlib.Core.Bool.{Bool, true, false}
use mathlib.Core.Option.{Option, none, some}
use mathlib.Core.List.{List, [], ◌∷◌, ◌++◌}
use native.Mathlib.Omega.{arith}
use mirasim2api.Base.Tests.{Key, ◌==◌, ==_iff, if◌then◌else◌}
use mirasim2api.Base.Lists.{length}

abbrev pub Map {ℓ κ} : Type ℓ → Type κ → Type (ℓ ⊔ κ)
Map K V = List (K × V)

module _ {ℓ κ} {K : Type ℓ} {V : Type κ} ⦃key : Key K⦄ where
  abbrev pub lookup : K → Map K V → Option V
  lookup k [] = none
  lookup k ((j, v) ∷ m) = if j == k then some v else lookup k m

  abbrev pub has : K → Map K V → Bool
  has k m = elim (lookup k m) [ none ↦ false | some _ ↦ true ]

  -- `m[k] = v`; a new key goes to the end.
  abbrev pub insert : K → V → Map K V → Map K V
  insert k v [] = (k, v) ∷ []
  insert k v ((j, w) ∷ m) = if j == k then (k, v) ∷ m else (j, w) ∷ insert k v m

  -- `delete(m, k)`
  abbrev pub erase : K → Map K V → Map K V
  erase k [] = []
  erase k ((j, w) ∷ m) = if j == k then erase k m else (j, w) ∷ erase k m

  pub lookup-insert :
      (k j : K) (v : V) (m : Map K V)
      → lookup j (insert k v m) ≡ (if k == j then some v else lookup j m)
  lookup-insert k j v [] = refl
  lookup-insert k j v ((i, w) ∷ m) =
      ground (arith, ==_iff k j, ==_iff i k, ==_iff i j, lookup-insert k j v m)

  pub lookup-erase :
      (k j : K) (m : Map K V) → lookup j (erase k m) ≡ (if k == j then none else lookup j m)
  lookup-erase k j [] = ground arith
  lookup-erase k j ((i, w) ∷ m) =
      ground (arith, ==_iff k j, ==_iff i k, ==_iff i j, lookup-erase k j m)

  -- A push at the end is seen where the key is new.
  pub lookup-append :
      (k j : K) (v : V) (m : Map K V)
      → lookup j m ≡ none
      → lookup j (m ++ (k, v) ∷ []) ≡ (if k == j then some v else none)
  lookup-append k j v [] h = refl
  lookup-append k j v ((i, w) ∷ m) h = ground (arith, lookup-append k j v m)

  pub lookup-append_old :
      (k j : K) (v w : V) (m : Map K V) → lookup j m ≡ some w → lookup j (m ++ (k, v) ∷ []) ≡ some w
  lookup-append_old k j v w [] h = ground arith
  lookup-append_old k j v w ((i, u) ∷ m) h = ground (arith, lookup-append_old k j v w m)

  pub length-erase_le : (k : K) (m : Map K V) → length (erase k m) ≤ length m
  length-erase_le k [] = omega arith
  length-erase_le k ((i, w) ∷ m) = ground (arith, length-erase_le k m)

  pub length-erase_lt :
      (k : K) (v : V) (m : Map K V) → lookup k m ≡ some v → length (erase k m) < length m
  length-erase_lt k v [] h = ground arith
  length-erase_lt k v ((i, w) ∷ m) h = ground (arith, length-erase_le k m, length-erase_lt k v m)

  pub length-insert_new :
      (k : K) (v : V) (m : Map K V) → lookup k m ≡ none → length (insert k v m) ≡ suc (length m)
  length-insert_new k v [] h = refl
  length-insert_new k v ((i, w) ∷ m) h = ground (arith, length-insert_new k v m)

  pub length-insert_old :
      (k : K) (v w : V) (m : Map K V) → lookup k m ≡ some w → length (insert k v m) ≡ length m
  length-insert_old k v w [] h = ground arith
  length-insert_old k v w ((i, u) ∷ m) h = ground (arith, length-insert_old k v w m)
