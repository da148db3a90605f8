-- ===== src/Billing/Prices.antt =====
-- The price of a model that the table does not name is that of the longest name it extends.
use mirasim2api.Base.{
  ◌≡◌, ◌⊎◌, Bool, true, ◌&&◌, List, [], ◌∷◌, Str, ltb, leb, not, ◌||◌, if◌then◌else◌, length, Map,
  text_key, In,
}
use mirasim2api.Base.Float.{Float}
use mirasim2api.Billing.Recorder.{ModelPrice, extends_name}

abbrev pub names : {R : Type 0} → Map Str (ModelPrice R) → List Str
names [] = []
names ((name, p) ∷ prices) = name ∷ names prices

-- The name that the loop keeps: the one it began with, or one of the table that the model extends.
abbrev pub IsKept : {R : Type 0} → Str → Map Str (ModelPrice R) → Str → Str → Type 0
IsKept model prices best name =
    (name ≡ best) ⊎ (In name (names prices) × (extends_name name model ≡ true))

-- A name that the model does not extend, or that is not longer than the one kept.
abbrev pub no_longer : Str → Str → Str → Bool
no_longer model name other = not (extends_name other model) || leb (length other) (length name)

module _ (model : Str) where
  longer : Str → Str → Str
  longer best name =
      if ltb (length best) (length name) && extends_name name model then name else best
