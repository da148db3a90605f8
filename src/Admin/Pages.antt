-- ===== src/Admin/Pages.antt =====
-- internal/admin/oauth.go: `htmlEscape` and `truncate`, for the texts that go into a page.
use mirasim2api.Base.{
  ℕ, zero, suc, ◌+◌, ◌≤◌, ◌≡◌, refl, ◌∙◌, ap, Bool, true, not, ◌&&◌, [], ◌∷◌, ◌++◌, Str, str, arith,
  leb, ◌==◌, ==_iff, if◌then◌else◌, length, take, length-append, length-take, all_b, number_key,
  Bool-cases, inl, inr,
}
use mirasim2api.Base.Text.{has_prefix, cut_prefix}

-- What the replacer writes for one byte: `&`, `<`, `>` and `"` have a name.
unfoldable pub escape_byte : ℕ → Str
escape_byte c =
    if c == 38
    then str "&amp;"
    else if c == 60
    then str "&lt;"
    else if c == 62
    then str "&gt;"
    else if c == 34
    then str "&quot;"
    else c ∷ []

unfoldable pub html_escape : Str → Str
html_escape [] = []
html_escape (c ∷ s) = escape_byte c ++ html_escape s

-- The bytes of `…`.
abbrev pub ellipsis : Str
ellipsis = 0xe2 ∷ 0x80 ∷ 0xa6 ∷ []

unfoldable pub truncate : Str → ℕ → Str
truncate s n = if leb (length s) n then s else take n s ++ ellipsis

-- No angle bracket and no double quote.
abbrev pub is_plain : ℕ → Bool
is_plain c = not (c == 60) && (not (c == 62) && not (c == 34))

-- What a browser reads: a name stands for its byte. `skip` counts the bytes of a name still to pass.
unfoldable pub read_html : (skip : ℕ) → Str → Str
read_html skip [] = []
read_html (suc skip) (c ∷ s) = read_html skip s
read_html zero (c ∷ s) =
    let one = c ∷ read_html 0 s in
    let amp = 38 ∷ read_html 4 s in
    let lt = 60 ∷ read_html 3 s in
    let gt = 62 ∷ read_html 3 s in
    let quote = 34 ∷ read_html 5 s in
    if not (c == 38)
    then one
    else if has_prefix (str "amp;") s
    then amp
    else if has_prefix (str "lt;") s
    then lt
    else if has_prefix (str "gt;") s
    then gt
    else if has_prefix (str "quot;") s
    then quote
    else one

all_b-append : (p : ℕ → Bool) (s t : Str) → all_b p (s ++ t) ≡ all_b p s && all_b p t
all_b-append p [] t = refl
all_b-append p (c ∷ s) t = ground (arith, all_b-append p s t)

escape_byte-plain : (c : ℕ) → all_b is_plain (escape_byte c) ≡ true
unfolding escape_byte
escape_byte-plain c = ground (arith, ==_iff c 60)

html_escape-plain : (s : Str) → all_b is_plain (html_escape s) ≡ true
unfolding html_escape
html_escape-plain [] = refl
html_escape-plain (c ∷ s) = ground (
  arith,
  all_b-append is_plain (escape_byte c) (html_escape s),
  escape_byte-plain c,
  html_escape-plain s,
)

read_html-escape_byte : (c : ℕ) (t : Str) → read_html 0 (escape_byte c ++ t) ≡ c ∷ read_html 0 t
unfolding escape_byte read_html has_prefix cut_prefix
read_html-escape_byte c t = elim (Bool-cases (c == 38)) [
  | inl e ↦ let same : c ≡ 38 = (==_iff c 38).0 e in rw same refl
  | inr amp ↦ elim (Bool-cases (c == 60)) [
    | inl e ↦ let same : c ≡ 60 = (==_iff c 60).0 e in rw same refl
    | inr lt ↦ elim (Bool-cases (c == 62)) [
      | inl e ↦ let same : c ≡ 62 = (==_iff c 62).0 e in rw same refl
      | inr gt ↦ elim (Bool-cases (c == 34)) [
        | inl e ↦ let same : c ≡ 34 = (==_iff c 34).0 e in rw same refl
        | inr quote ↦ rw (escape_byte, amp, lt, gt, quote, amp) refl
      ]
    ]
  ]
]

read_html-html_escape : (s : Str) → read_html 0 (html_escape s) ≡ s
unfolding html_escape read_html
read_html-html_escape [] = refl
read_html-html_escape (c ∷ s) =
    read_html-escape_byte c (html_escape s) ∙ ap (λ t. c ∷ t) (read_html-html_escape s)

-- A text that is escaped has no angle bracket and no double quote, and reads as the text that it was.
pub html_escape_lem :
    (s : Str) → (all_b is_plain (html_escape s) ≡ true) × (read_html 0 (html_escape s) ≡ s)
html_escape_lem s = (html_escape-plain s, read_html-html_escape s)

-- A truncated text is at most `n` bytes and the ellipsis long.
pub length-truncate : (s : Str) (n : ℕ) → length (truncate s n) ≤ n + 3
unfolding truncate
length-truncate s n = elim (Bool-cases (leb (length s) n)) [
  | inl e ↦ rw e (ground arith)
  | inr e ↦ rw e (omega (arith, length-append (take n s) ellipsis, length-take n s))
]
