-- ===== src/Mirasim/Crypto/Canonical.antt =====
-- The signed text does not depend on the order of a map, and its lines can be read back.
use mirasim2api.Base.{
  ◌≡◌, refl, sym, ap, ap₂, ◌∙◌, Bool, true, false, not, none, some, List, [], ◌∷◌, ◌++◌, inl, inr,
  Str, arith, ◌==◌, ==_iff, Map, lookup, Bool-cases, number_key, text_key, all_b, append_assoc,
  append-nil,
}
use mirasim2api.Base.Int.{ℤ}
use mirasim2api.Base.Text.{split_on}
use mirasim2api.Mirasim.Crypto.{
  Primitives, SignParams, str_leb, insert_string, sort_strings, keys_of, write_meta, meta_line,
  sha256hex, newline, join_lines, canonical_lines, canonical_string,
}

-- Two lists of the same entries, in any two orders.
pub data Reordered {ℓ} {A : Type ℓ} : List A → List A → Type ℓ where
  nothing : Reordered [] []
  keep : (a : A) {l k : List A} → Reordered l k → Reordered (a ∷ l) (a ∷ k)
  exchange : (a b : A) (l : List A) → Reordered (a ∷ b ∷ l) (b ∷ a ∷ l)
  after : {l k j : List A} → Reordered l k → Reordered k j → Reordered l j

str_leb_antisym : (s t : Str) → str_leb s t ≡ true → str_leb t s ≡ true → s ≡ t
unfolding str_leb
str_leb_antisym [] [] h k = refl
str_leb_antisym [] (b ∷ t) h k = absurd (cc)
str_leb_antisym (a ∷ s) [] h k = absurd (cc)
str_leb_antisym (a ∷ s) (b ∷ t) h k = ground (arith, str_leb_antisym s t, ==_iff a b, ==_iff b a)

str_leb_total : (s t : Str) → str_leb s t ≡ false → str_leb t s ≡ true
unfolding str_leb
str_leb_total [] t h = absurd (cc)
str_leb_total (a ∷ s) [] h = refl
str_leb_total (a ∷ s) (b ∷ t) h = ground (arith, str_leb_total s t, ==_iff a b, ==_iff b a)

str_leb_trans : (s t u : Str) → str_leb s t ≡ true → str_leb t u ≡ true → str_leb s u ≡ true
unfolding str_leb
str_leb_trans [] t u h k = refl
str_leb_trans (a ∷ s) [] u h k = absurd (cc)
str_leb_trans (a ∷ s) (b ∷ t) [] h k = absurd (cc)
str_leb_trans (a ∷ s) (b ∷ t) (c ∷ u) h k =
    ground (arith, str_leb_trans s t u, ==_iff a b, ==_iff b c, ==_iff a c)

insert_string_comm :
    (j k : Str) (l : List Str)
    → insert_string j (insert_string k l) ≡ insert_string k (insert_string j l)
unfolding insert_string
insert_string_comm j k [] =
    ground (arith, str_leb_antisym j k, str_leb_total j k, str_leb_total k j)
insert_string_comm j k (i ∷ l) = ground (
  arith,
  insert_string_comm j k l,
  str_leb_antisym j k,
  str_leb_total j k,
  str_leb_total k j,
  str_leb_total j i,
  str_leb_total k i,
  str_leb_trans j k i,
  str_leb_trans k j i,
  str_leb_trans j i k,
  str_leb_trans k i j,
)

sort_strings-Reordered : {l k : List Str} → Reordered l k → sort_strings l ≡ sort_strings k
unfolding sort_strings
sort_strings-Reordered nothing = refl
sort_strings-Reordered (keep a r) = ap (insert_string a) (sort_strings-Reordered r)
sort_strings-Reordered (exchange a b l) = insert_string_comm a b (sort_strings l)
sort_strings-Reordered (after r q) = sort_strings-Reordered r ∙ sort_strings-Reordered q

keys_of-Reordered : {m n : Map Str Str} → Reordered m n → Reordered (keys_of m) (keys_of n)
keys_of-Reordered nothing = nothing
keys_of-Reordered (keep (k, v) r) = keep k (keys_of-Reordered r)
keys_of-Reordered (exchange (j, v) (k, w) m) = exchange j k (keys_of m)
keys_of-Reordered (after r q) = after (keys_of-Reordered r) (keys_of-Reordered q)

-- No key stands twice, as in a Go map.
abbrev pub DistinctKeys : Map Str Str → Type 0
DistinctKeys [] = Unit
DistinctKeys ((k, v) ∷ m) = (lookup k m ≡ none) × DistinctKeys m

lookup-Reordered :
    {m n : Map Str Str}
    → Reordered m n
    → DistinctKeys m
    → DistinctKeys n × ((k : Str) → lookup k m ≡ lookup k n)
lookup-Reordered nothing d = (d, λ k. refl)
lookup-Reordered (keep (j, v) r) d =
    let (d', same) = lookup-Reordered r d.1 in ((sym (same j) ∙ d.0, d'), λ k. rw (same k) refl)
lookup-Reordered (exchange (i, v) (j, w) m) d = (
  (ground (arith, ==_iff i j, ==_iff j i), (ground arith, d.1.1)),
  λ k. ground (arith, ==_iff i k, ==_iff j k, ==_iff j i),
)
lookup-Reordered (after r q) d =
    let (d', same) = lookup-Reordered r d in
    let (d'', same') = lookup-Reordered q d' in (d'', λ k. same k ∙ same' k)

write_meta_same :
    (m n : Map Str Str) (ks : List Str)
    → ((k : Str) → lookup k m ≡ lookup k n)
    → write_meta m ks ≡ write_meta n ks
unfolding write_meta
write_meta_same m n [] same = refl
write_meta_same m n (k ∷ ks) same =
    ap₂ (λ o r. k ++ 0 ∷ (elim o [ none ↦ [] | some v ↦ v ]) ++ 0 ∷ r) (same k)
      (write_meta_same m n ks same)

-- The hash of the pairs behind the sorted keys, or nothing.
abbrev hashed : Primitives → Map Str Str → List Str → Str
hashed lib m [] = []
hashed lib m (k ∷ ks) = sha256hex lib (write_meta m (k ∷ ks))

hashed-insert_string :
    (lib : Primitives) (m : Map Str Str) (k : Str) (ks : List Str)
    → hashed lib m (insert_string k ks) ≡ sha256hex lib (write_meta m (insert_string k ks))
unfolding insert_string
hashed-insert_string lib m k [] = refl
hashed-insert_string lib m k (j ∷ ks) = elim (Bool-cases (str_leb k j)) [
  | inl e ↦ rw e refl
  | inr e ↦ rw e refl
]

meta_line_lem :
    (lib : Primitives) (m : Map Str Str) → meta_line lib m ≡ hashed lib m (sort_strings (keys_of m))
unfolding meta_line sort_strings
meta_line_lem lib [] = refl
meta_line_lem lib ((k, v) ∷ m) =
    sym (hashed-insert_string lib ((k, v) ∷ m) k (sort_strings (keys_of m)))

hashed_same :
    (lib : Primitives) (m n : Map Str Str) (ks : List Str)
    → ((k : Str) → lookup k m ≡ lookup k n)
    → hashed lib m ks ≡ hashed lib n ks
hashed_same lib m n [] same = refl
hashed_same lib m n (k ∷ ks) same = ap (sha256hex lib) (write_meta_same m n (k ∷ ks) same)

meta_line-Reordered :
    (lib : Primitives) (m n : Map Str Str)
    → DistinctKeys m
    → Reordered m n
    → meta_line lib m ≡ meta_line lib n
meta_line-Reordered lib m n d r =
    meta_line_lem lib m
    ∙ ap (hashed lib m) (sort_strings-Reordered (keys_of-Reordered r))
    ∙ hashed_same lib m n (sort_strings (keys_of n)) (lookup-Reordered r d).1
    ∙ sym (meta_line_lem lib n)

-- Whatever the order is in which the runtime iterates over the meta headers, the text that is signed
-- is the same.
pub canonical_string-Reordered :
    (lib : Primitives) (p : SignParams) (other : Map Str Str) (ts : ℤ) (nonce device_id : Str)
    → DistinctKeys p.meta
    → Reordered p.meta other
    → canonical_string lib p ts nonce device_id
      ≡ canonical_string lib (record p { meta = other }) ts nonce device_id
unfolding canonical_string canonical_lines
canonical_string-Reordered lib p other ts nonce device_id d r =
    rw (canonical_string, canonical_lines, meta_line-Reordered lib p.meta other d r) refl

-- A text on one line.
abbrev pub one_line : Str → Bool
one_line s = all_b (λ c. not (c == newline)) s

split_on-end : (field s : Str) → one_line s ≡ true → split_on newline field s ≡ (field ++ s) ∷ []
unfolding split_on
split_on-end field [] h = rw (append-nil field) refl
split_on-end field (c ∷ s) h =
    ground (arith, split_on-end (field ++ c ∷ []) s, append_assoc field (c ∷ []) s)

split_on-line :
    (field s rest : Str)
    → one_line s ≡ true
    → split_on newline field (s ++ newline ∷ rest) ≡ (field ++ s) ∷ split_on newline [] rest
unfolding split_on
split_on-line field [] rest h = rw (append-nil field) refl
split_on-line field (c ∷ s) rest h =
    ground (arith, split_on-line (field ++ c ∷ []) s rest, append_assoc field (c ∷ []) s)

split_on-join_lines :
    (l : Str) (ls : List Str)
    → all_b one_line (l ∷ ls) ≡ true
    → split_on newline [] (join_lines (l ∷ ls)) ≡ l ∷ ls
unfolding join_lines
split_on-join_lines l [] h = split_on-end [] l (ground arith)
split_on-join_lines l (k ∷ ls) h =
    split_on-line [] l (join_lines (k ∷ ls)) (ground arith)
    ∙ ap (λ r. l ∷ r) (split_on-join_lines k ls (ground arith))

-- Where no field has a line feed, nor hex text or digits, the lines of the signed text are its ten
-- fields: no other request has the same text unless it has the same lines.
pub split_on-canonical_string :
    (lib : Primitives) (p : SignParams) (ts : ℤ) (nonce device_id : Str)
    → all_b one_line (canonical_lines lib p ts nonce device_id) ≡ true
    → split_on newline [] (canonical_string lib p ts nonce device_id)
      ≡ canonical_lines lib p ts nonce device_id
unfolding canonical_string canonical_lines
split_on-canonical_string lib p ts nonce device_id h = split_on-join_lines _ _ h
