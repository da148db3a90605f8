-- ===== src/Base/Text.antt =====
-- Go's `strings` and `bytes` functions that the program uses, on bytes.
use Prim.Native.Nat.{ℕ, zero, suc, ◌-◌}
use mathlib.Core.Bool.{Bool, true, false, ◌&&◌, ◌||◌}
use mathlib.Core.List.{List, [], ◌∷◌, ◌++◌}
use mathlib.Core.Option.{Option, none, some}
use mathlib.Core.Path.{◌≡◌, refl, ap}
use native.Mathlib.Omega.{arith}
use mirasim2api.Base.Lists.{all_b}
use mirasim2api.Base.Tests.{Str, leb, ◌==◌, ==_iff, number_key, if◌then◌else◌}

-- The byte length of the space that a text begins with, as `unicode.IsSpace` sees it; else 0.
unfoldable pub space_width : Str → ℕ
space_width [] = 0
space_width (a ∷ []) = if (leb 9 a && leb a 13) || a == 32 then 1 else 0
space_width (a ∷ b ∷ []) =
    if (leb 9 a && leb a 13) || a == 32
    then 1
    else if a == 0xc2 && (b == 0x85 || b == 0xa0)
    then 2
    else 0
space_width (a ∷ b ∷ c ∷ _) =
    if (leb 9 a && leb a 13) || a == 32
    then 1
    else if a == 0xc2 && (b == 0x85 || b == 0xa0)
    then 2
    else if a == 0xe1 && (b == 0x9a && c == 0x80)
    then 3
    else if a == 0xe2 && (b == 0x80 && (leb c 0x8a || (c == 0xa8 || (c == 0xa9 || c == 0xaf))))
    then 3
    else if a == 0xe2 && (b == 0x81 && c == 0x9f)
    then 3
    else if a == 0xe3 && (b == 0x80 && c == 0x80)
    then 3
    else 0

-- `strings.Join(strings.Fields(s), " ")`. `skip` counts the bytes of a space still to be passed;
-- `started` says that a field was written, and `gap` that a space stands before the next one.
unfoldable pub join_fields : (skip : ℕ) (started gap : Bool) → Str → Str
unfolding space_width
join_fields skip started gap [] = []
join_fields (suc skip) started gap (c ∷ s) = join_fields skip started gap s
join_fields zero started gap (c ∷ s) =
    let width = space_width (c ∷ s) in
    let field = c ∷ join_fields 0 true false s in
    let passed = join_fields (width - 1) started true s in
    if width == 0 then (if started && gap then 32 ∷ field else field) else passed

-- Whether a text is all space.
unfoldable pub all_space : (skip : ℕ) → Str → Bool
unfolding space_width
all_space skip [] = true
all_space (suc skip) (c ∷ s) = all_space skip s
all_space zero (c ∷ s) =
    let width = space_width (c ∷ s) in
    let rest = all_space (width - 1) s in if width == 0 then false else rest

trim_left : (skip : ℕ) → Str → Str
trim_left skip [] = []
trim_left (suc skip) (c ∷ s) = trim_left skip s
trim_left zero (c ∷ s) =
    let width = space_width (c ∷ s) in
    let rest = trim_left (width - 1) s in if width == 0 then c ∷ s else rest

trim_right : Str → Str
trim_right [] = []
trim_right (c ∷ s) = if all_space 0 (c ∷ s) then [] else c ∷ trim_right s

-- `strings.TrimSpace`
unfoldable pub trim_space : Str → Str
unfolding trim_left trim_right all_space space_width
trim_space s = trim_right (trim_left 0 s)

pub trim_space-nil : trim_space [] ≡ []
unfolding trim_space trim_left trim_right
trim_space-nil = refl

-- A text of visible ASCII characters has no space to trim.
abbrev pub is_visible : ℕ → Bool
is_visible c = leb 33 c && leb c 126

space_width-visible : (c : ℕ) (s : Str) → is_visible c ≡ true → space_width (c ∷ s) ≡ 0
unfolding space_width
space_width-visible c [] h = ground (arith, ==_iff c 32)
space_width-visible c (b ∷ []) h = ground (arith, ==_iff c 32, ==_iff c 0xc2)
space_width-visible c (b ∷ d ∷ s) h =
    ground (arith, ==_iff c 32, ==_iff c 0xc2, ==_iff c 0xe1, ==_iff c 0xe2, ==_iff c 0xe3)

trim_right-visible : (s : Str) → all_b is_visible s ≡ true → trim_right s ≡ s
unfolding trim_right all_space
trim_right-visible [] h = refl
trim_right-visible (c ∷ s) h =
    rw (space_width-visible c s (ground arith))
      (ap (λ t. c ∷ t) (trim_right-visible s (ground arith)))

pub trim_space-visible : (s : Str) → all_b is_visible s ≡ true → trim_space s ≡ s
unfolding trim_space trim_left
trim_space-visible [] h = trim_right-visible [] h
trim_space-visible (c ∷ s) h =
    rw (space_width-visible c s (ground arith)) (trim_right-visible (c ∷ s) h)

-- `strings.CutPrefix`
unfoldable pub cut_prefix : Str → Str → Option Str
cut_prefix [] s = some s
cut_prefix (a ∷ p) [] = none
cut_prefix (a ∷ p) (c ∷ s) = if a == c then cut_prefix p s else none

pub cut_prefix-append : (p s : Str) → cut_prefix p (p ++ s) ≡ some s
unfolding cut_prefix
cut_prefix-append [] s = refl
cut_prefix-append (a ∷ p) s = ground (arith, cut_prefix-append p s, ==_iff a a)

pub cut_prefix-inv : (p s t : Str) → cut_prefix p s ≡ some t → s ≡ p ++ t
unfolding cut_prefix
cut_prefix-inv [] s t h = ground arith
cut_prefix-inv (a ∷ p) [] t h = absurd (cc)
cut_prefix-inv (a ∷ p) (c ∷ s) t h = ground (arith, cut_prefix-inv p s t, ==_iff a c)

unfoldable pub has_prefix : Str → Str → Bool
unfolding cut_prefix
has_prefix p s = elim (cut_prefix p s) [ none ↦ false | some _ ↦ true ]

-- `strings.Contains`
unfoldable pub contains : Str → Str → Bool
unfolding has_prefix
contains p [] = has_prefix p []
contains p (c ∷ s) = has_prefix p (c ∷ s) || contains p s

-- `bytes.TrimRight(line, cutset)`
unfoldable pub trim_right_of : (ℕ → Bool) → Str → Str
trim_right_of cut [] = []
trim_right_of cut (c ∷ s) =
    let rest = trim_right_of cut s in
    elim rest [ [] ↦ (if cut c then [] else c ∷ []) | d ∷ t ↦ c ∷ d ∷ t ]

-- `bytes.Split(s, sep)` for a separator of one byte: `field` is the field so far.
unfoldable pub split_on : ℕ → (field : Str) → Str → List Str
split_on sep field [] = field ∷ []
split_on sep field (c ∷ s) =
    if c == sep then field ∷ split_on sep [] s else split_on sep (field ++ c ∷ []) s

-- The same for a separator of two equal bytes. `pending` says that one stands just before.
unfoldable pub split_on_double : ℕ → (field : Str) (pending : Bool) → Str → List Str
split_on_double sep field false [] = field ∷ []
split_on_double sep field true [] = (field ++ sep ∷ []) ∷ []
split_on_double sep field false (c ∷ s) =
    if c == sep
    then split_on_double sep field true s
    else split_on_double sep (field ++ c ∷ []) false s
split_on_double sep field true (c ∷ s) =
    if c == sep
    then field ∷ split_on_double sep [] false s
    else split_on_double sep (field ++ sep ∷ c ∷ []) false s
