-- ===== src/Admin/Links/Carries.antt =====
-- Which token `extractRefreshToken` finds in a pasted text.
use mirasim2api.Base.{
  ℕ, ◌≡◌, ◌≢◌, ◌↔◌, ◌⊎◌, refl, sym, ap, ◌∙◌, Bool, true, false, ◌||◌, Option, none, some, [], ◌∷◌,
  ◌++◌, Str, str, ◌==◌, if◌then◌else◌, Map, lookup, all_b, arith, number_key, text_key,
  Option-cases, Bool-cases, inl, inr,
}
use mathlib.Core.Option.{some-injective}
use mirasim2api.Base.Text.{trim_space, contains}
use mirasim2api.Pool.Pick.{is_empty}
use mirasim2api.Admin.Links.{
  Url, Urls, Extracted, found_token, not_a_link, no_parameter, panics, trim_marks, refresh_token_in,
  from_query, extract_refresh_token,
}

abbrev pub is_mark : ℕ → Bool
is_mark c = c == 63 || c == 35

-- `rest` is what is left of the text behind all its leading marks.
abbrev pub Unmarked : Str → Str → Type 0
Unmarked text rest =
    (marks : Str) × (text ≡ marks ++ rest)
    × (all_b is_mark marks ≡ true)
    × ((c : ℕ) (s : Str) → rest ≡ c ∷ s → is_mark c ≡ false)

-- The parameters name a refresh token that is not empty.
abbrev pub Names : Map Str Str → Str → Type 0
Names query t = (lookup (str "refresh_token") query ≡ some t) × (is_empty t ≡ false)

-- A text that mentions the parameter, and whose rest `text` parses to parameters with the token.
abbrev pub Mentions : Urls → (whole text t : Str) → Type 0
Mentions u whole text t =
    (contains (str "refresh_token=") whole ≡ true)
    × (query : Map Str Str) × (u.parse_query text ≡ some query)
    × Names query t

-- Where a pasted text has its token: in the query, or else, where the link has a host, in the
-- fragment, and where it has none, in the text itself behind its leading marks.
abbrev pub Carries : Urls → Str → Url → Str → Type 0
Carries u text link t =
    Names link.query t
    ⊎ (((s : Str) → ¬ Names link.query s)
        × (((link.host ≢ []) × Mentions u link.fragment link.fragment t)
            ⊎ ((link.host ≡ []) × (rest : Str) × Unmarked text rest × Mentions u text rest t)))

trim_marks-Unmarked : (text : Str) → Unmarked text (trim_marks text)
unfolding trim_marks
trim_marks-Unmarked [] = ([], refl, refl, λ c s e. absurd (cc))
trim_marks-Unmarked (c ∷ s) =
    let (marks, e, all, stop) = trim_marks-Unmarked s in
    elim (Bool-cases (is_mark c)) [
      | inl m ↦ rw m (c ∷ marks, ap (λ r. c ∷ r) e, ground arith, stop)
      | inr m ↦ rw m ([], refl, refl, λ d r same. ground arith)
    ]

trim_marks-append :
    (marks rest : Str)
    → all_b is_mark marks ≡ true
    → ((c : ℕ) (s : Str) → rest ≡ c ∷ s → is_mark c ≡ false)
    → trim_marks (marks ++ rest) ≡ rest
unfolding trim_marks
trim_marks-append [] [] all stop = refl
trim_marks-append [] (c ∷ s) all stop = rw (stop c s refl) refl
trim_marks-append (m ∷ marks) rest all stop = ground (arith, trim_marks-append marks rest)

Unmarked-trim_marks : (text rest : Str) → Unmarked text rest → trim_marks text ≡ rest
Unmarked-trim_marks text rest (marks, e, all, stop) =
    ap trim_marks e ∙ trim_marks-append marks rest all stop

abbrev text_in : Option Str → Str
text_in none = []
text_in (some v) = v

Names-refresh_token_in :
    (query : Map Str Str) (t : Str)
    → Names query t ↔ ((refresh_token_in query ≡ t) × (is_empty t ≡ false))
Names-refresh_token_in query t = elim (Option-cases (lookup (str "refresh_token") query)) [
  | inl e ↦
      let is : refresh_token_in query ≡ [] = ap text_in e in
      (λ n. absurd (cc), λ n. absurd (let at : [] ≡ t = sym is ∙ n.0 in ground arith))
  | inr (v, e) ↦
      let is : refresh_token_in query ≡ v = ap text_in e in
      (
        λ n. let same : v ≡ t = some-injective v t (sym e ∙ n.0) in (is ∙ same, n.1),
        λ n. let same : v ≡ t = sym is ∙ n.0 in (e ∙ ap some same, n.1),
      )
]

found_token-from_query :
    (u : Urls) (otherwise : Extracted) (text t : Str)
    → otherwise ≢ found_token t
    → (from_query u otherwise text ≡ found_token t)
      ↔ ((query : Map Str Str) × (u.parse_query text ≡ some query) × Names query t)
unfolding from_query
found_token-from_query u otherwise text t differs = elim (Option-cases (u.parse_query text)) [
  | inl e ↦ (λ h. absurd (differs (rw (from_query, e) at h)), λ m. absurd (cc))
  | inr (query, e) ↦
      let (to, from) = Names-refresh_token_in query t in
      elim (Bool-cases (is_empty (refresh_token_in query))) [
        | inl empty ↦ (
          λ h. absurd (differs (rw (from_query, e, empty) at h)),
          λ (q, parsed, n).
              let same : query ≡ q = some-injective query q (sym e ∙ parsed) in
              let (is, full) = to (rw same n) in absurd (ground arith),
        )
        | inr full ↦ (
          λ h.
              let h' = rw (from_query, e, full) at h in
              let same : refresh_token_in query ≡ t = ground arith in
              (query, e, from (same, rw (← same) full)),
          λ (q, parsed, n).
              let same : query ≡ q = some-injective query q (sym e ∙ parsed) in
              let (is, kept) = to (rw same n) in rw (from_query, e, full) (ap found_token is),
        )
      ]
]

Mentions-from_query :
    (u : Urls) (otherwise : Extracted) (whole text t : Str)
    → otherwise ≢ found_token t
    → ((if contains (str "refresh_token=") whole then from_query u otherwise text else otherwise)
        ≡ found_token t)
      ↔ Mentions u whole text t
Mentions-from_query u otherwise whole text t differs =
    let (to, from) = found_token-from_query u otherwise text t differs in
    elim (Bool-cases (contains (str "refresh_token=") whole)) [
      | inl named ↦ rw named (
        λ h. let (q, parsed, n) = to h in (refl, q, parsed, n),
        λ (c, q, parsed, n). from (q, parsed, n),
      )
      | inr unnamed ↦ rw unnamed (λ h. absurd (differs h), λ m. absurd (ground arith))
    ]

unnamed_lem :
    (query : Map Str Str) → is_empty (refresh_token_in query) ≡ true → (s : Str) → ¬ Names query s
unnamed_lem query empty s n =
    let (is, full) = (Names-refresh_token_in query s).0 n in
    let same : is_empty s ≡ true = rw (← is) empty in absurd (cc)

is_empty_lem : (s : Str) → is_empty s ≡ true → s ≡ []
is_empty_lem [] e = refl
is_empty_lem (c ∷ s) e = absurd (cc)

in_query_lem :
    (u : Urls) (raw : Str) (link : Url) (t : Str)
    → u.parse (trim_space raw) ≡ some link
    → is_empty (refresh_token_in link.query) ≡ false
    → (extract_refresh_token u raw ≡ found_token t) ↔ Carries u (trim_space raw) link t
unfolding extract_refresh_token
in_query_lem u raw link t e full =
    let (to, from) = Names-refresh_token_in link.query t in
    let (_, own) = Names-refresh_token_in link.query (refresh_token_in link.query) in
    rw (extract_refresh_token, e, full)
      (
        λ h.
            let same : refresh_token_in link.query ≡ t = ground arith in
            inl (from (same, rw (← same) full)),
        λ c. elim c [
          | inl n ↦ ap found_token (to n).0
          | inr m ↦ absurd (m.0 (refresh_token_in link.query) (own (refl, full)))
        ],
      )

elsewhere_lem :
    (u : Urls) (raw : Str) (link : Url) (t : Str)
    → u.parse (trim_space raw) ≡ some link
    → is_empty (refresh_token_in link.query) ≡ true
    → (extract_refresh_token u raw ≡ found_token t) ↔ Carries u (trim_space raw) link t
unfolding extract_refresh_token
elsewhere_lem u raw link t e empty =
    let text = trim_space raw in
    let unnamed = unnamed_lem link.query empty in
    elim (Bool-cases (is_empty link.host)) [
      | inl no_host ↦
          let (found, back) = Mentions-from_query u not_a_link text (trim_marks text) t (λ c. cc) in
          rw (extract_refresh_token, e, empty, no_host)
            (
              λ h. inr (
                unnamed,
                inr (
                  is_empty_lem link.host no_host,
                  trim_marks text,
                  trim_marks-Unmarked text,
                  found h,
                ),
              ),
              λ c. elim c [
                | inl n ↦ absurd (unnamed t n)
                | inr m ↦ elim m.1 [
                  | inl k ↦ absurd (k.0 (is_empty_lem link.host no_host))
                  | inr (z, rest, un, k) ↦ back (rw (Unmarked-trim_marks text rest un) k)
                ]
              ],
            )
      | inr host ↦
          let (found, back) =
            Mentions-from_query u no_parameter link.fragment link.fragment t (λ c. cc) in
          let has : link.host ≢ [] = λ z. absurd (ground arith) in
          rw (extract_refresh_token, e, empty, host)
            (
              λ h. inr (unnamed, inl (has, found h)),
              λ c. elim c [
                | inl n ↦ absurd (unnamed t n)
                | inr m ↦ elim m.1 [ inl k ↦ back k.1 | inr k ↦ absurd (has k.0) ]
              ],
            )
    ]

-- Where `url.Parse` accepts the pasted text, the handler finds exactly the token that the text
-- carries: the refresh_token of its query, or else that of the fragment of a link with a host, or of
-- a text without one behind its leading marks, if these mention the parameter. Where it refuses the
-- text, the handler panics on the nil URL.
pub extract_refresh_token_lem :
    (u : Urls) (raw : Str)
    → ((link : Url)
        → u.parse (trim_space raw) ≡ some link
        → (t : Str)
        → (extract_refresh_token u raw ≡ found_token t) ↔ Carries u (trim_space raw) link t)
      × (u.parse (trim_space raw) ≡ none → extract_refresh_token u raw ≡ panics)
unfolding extract_refresh_token
extract_refresh_token_lem u raw = (
  λ link e t. elim (Bool-cases (is_empty (refresh_token_in link.query))) [
    | inl empty ↦ elsewhere_lem u raw link t e empty
    | inr full ↦ in_query_lem u raw link t e full
  ],
  λ e. rw (extract_refresh_token, e) refl,
)
