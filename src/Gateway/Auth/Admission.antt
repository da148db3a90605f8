-- ===== src/Gateway/Auth/Admission.antt =====
-- Who is let through: a key that is known, enabled, in time and allowed the model, or nobody's
-- request where none is required.
use mirasim2api.Base.{
  ℕ, ◌≡◌, ◌≢◌, ◌↔◌, ◌⊎◌, refl, ap, Bool, true, false, not, ◌||◌, Option, none, some, List, [], ◌∷◌,
  ◌++◌, Str, str, arith, Bool-cases, Option-cases, inl, inr, if◌then◌else◌, In, here, there, ◌==◌,
  ==_iff, text_key,
}
use mathlib.Core.Option.{some-injective}
use mirasim2api.Base.Int.{ℤ, pos, ◌≤ℤ◌}
use mirasim2api.Base.Text.{cut_prefix, cut_prefix-append, cut_prefix-inv, trim_space}
use mirasim2api.Pool.Pick.{is_empty}
use mirasim2api.Store.Rows.{ApiKey}
use mirasim2api.Gateway.Response.{Endpoint, Writer}
use mirasim2api.Gateway.Auth.{
  Headers, Verdict, refused, passed, extract_api_key, lists, no_names, has_expired, may_use,
  check_key, authenticate,
}

-- Whom a verdict lets through.
abbrev pub admitted : {R : Type 0} → Verdict R → Option (Option (ApiKey R))
admitted (refused w) = none
admitted (passed key) = some key

module _ {R : Type 0} where
  abbrev valid_key : ℕ → Str → ApiKey R → Bool
  valid_key now model key =
      if not key.enabled then false else if has_expired now key then false else may_use model key

  admitted-check_key :
      (now : ℕ) (endpoint : Endpoint) (model : Str) (key : ApiKey R) (w : Writer)
      → admitted (check_key now endpoint model key w)
        ≡ (if valid_key now model key then some (some key) else none)
  unfolding check_key
  admitted-check_key now endpoint model key w = ground arith

  authenticate_cases :
      (required : Bool) (find : Str → Option (ApiKey R)) (now : ℕ) (h : Headers)
      (endpoint : Endpoint) (model : Str) (w : Writer)
      → admitted (authenticate required find now h endpoint model w) ≡ (
          if is_empty (extract_api_key h)
          then (if required then none else some none)
          else elim (find (extract_api_key h)) [
            | none ↦ none
            | some key ↦ if valid_key now model key then some (some key) else none
          ])
  unfolding authenticate
  authenticate_cases required find now h endpoint model w =
      elim (Bool-cases (is_empty (extract_api_key h))) [
        | inl e ↦ rw e (ground arith)
        | inr e ↦ elim (Option-cases (find (extract_api_key h))) [
          | inl d ↦ rw (e, d) refl
          | inr (key, d) ↦ rw (e, d) (admitted-check_key now endpoint model key w)
        ]
      ]

-- The token that a request presents: what follows `Bearer ` in its Authorization, or else what its
-- x-api-key says, without the space around it.
abbrev pub Presents : Headers → Str → Type 0
Presents h token =
    ((v : Str) × (h.authorization ≡ str "Bearer " ++ v) × (token ≡ trim_space v))
    ⊎ (((v : Str) → h.authorization ≢ (str "Bearer " ++ v)) × (token ≡ trim_space h.x_api_key))

extract_api_key-Presents :
    (h : Headers) (token : Str) → Presents h token → extract_api_key h ≡ token
unfolding extract_api_key
extract_api_key-Presents h token (inl (v, e, t)) =
    rw (extract_api_key, e, cut_prefix-append (str "Bearer ") v, t) refl
extract_api_key-Presents h token (inr (other, t)) = elim (Bool-cases (is_empty h.authorization)) [
  | inl e ↦ rw (extract_api_key, e, t) refl
  | inr e ↦ elim (Option-cases (cut_prefix (str "Bearer ") h.authorization)) [
    | inl d ↦ rw (extract_api_key, e, d, t) refl
    | inr (v, d) ↦ absurd (other v (cut_prefix-inv (str "Bearer ") h.authorization v d))
  ]
]

is_empty_iff : (s : Str) → (is_empty s ≡ true) ↔ (s ≡ [])
is_empty_iff [] = (λ e. refl, λ e. refl)
is_empty_iff (c ∷ s) = (λ e. absurd (cc), λ e. absurd (cc))

lists-In : (model : Str) (ms : List Str) → lists model ms ≡ true → In model ms
unfolding lists
lists-In model [] h = absurd (cc)
lists-In model (m ∷ ms) h = elim (Bool-cases (m == model)) [
  | inl e ↦ rw (← (==_iff m model).0 e) here
  | inr e ↦ there (lists-In model ms (ground arith))
]

In-lists : (model : Str) (ms : List Str) → In model ms → lists model ms ≡ true
unfolding lists
In-lists model [] m = elim m [ ]
In-lists model (_ ∷ ms) here = ground (arith, ==_iff model model)
In-lists model (k ∷ ms) (there m) = ground (arith, In-lists model ms m)

allowed :
    (model : Str) (ms : List Str) → no_names ms || lists model ms ≡ true → (ms ≡ []) ⊎ In model ms
allowed model [] h = inl refl
allowed model (m ∷ ms) h = inr (lists-In model (m ∷ ms) h)

allows :
    (model : Str) (ms : List Str) → (ms ≡ []) ⊎ In model ms → no_names ms || lists model ms ≡ true
allows model ms (inl e) = rw e refl
allows model ms (inr m) = ground (arith, In-lists model ms m)

module _ {R : Type 0} where
  -- An enabled key, before or at its end, for a model that it may use.
  abbrev pub MayCall : ℕ → Str → ApiKey R → Type 0
  MayCall now model key =
      (key.enabled ≡ true)
      × ((t : ℤ) → key.expires_at ≡ some t → pos now ≤ℤ t)
      × ((model ≡ []) ⊎ (key.model_allowlist ≡ []) ⊎ In model key.model_allowlist)

  has_expired_iff :
      (now : ℕ) (key : ApiKey R)
      → (has_expired now key ≡ false) ↔ ((t : ℤ) → key.expires_at ≡ some t → pos now ≤ℤ t)
  unfolding has_expired
  has_expired_iff now key = elim (Option-cases key.expires_at) [
    | inl e ↦ (λ h t at. absurd (cc), λ h. rw (has_expired, e) refl)
    | inr (u, e) ↦ (
      λ h t at. let same : u ≡ t = some-injective u t (rw (← e) at) in rw (← same) (ground arith),
      λ h. let kept = h u e in rw (has_expired, e) (ground arith),
    )
  ]

  may_use_iff :
      (model : Str) (key : ApiKey R)
      → (may_use model key ≡ true)
        ↔ ((model ≡ []) ⊎ (key.model_allowlist ≡ []) ⊎ In model key.model_allowlist)
  unfolding may_use
  may_use_iff model key = (
    λ h. elim (Bool-cases (is_empty model)) [
      | inl e ↦ inl ((is_empty_iff model).0 e)
      | inr e ↦ inr (allowed model key.model_allowlist (ground arith))
    ],
    λ m. elim m [
      | inl e ↦ rw e refl
      | inr l ↦ let a = allows model key.model_allowlist l in ground arith
    ],
  )

  valid_key-MayCall :
      (now : ℕ) (model : Str) (key : ApiKey R)
      → (valid_key now model key ≡ true) ↔ MayCall now model key
  valid_key-MayCall now model key =
      let (fresh, fresh') = has_expired_iff now key in
      let (used, used') = may_use_iff model key in
      (
        λ h. (ground arith, fresh (ground arith), used (ground arith)),
        λ m. let on = m.0 in let f = fresh' m.1 in let u = used' m.2 in ground arith,
      )

  -- Whom the branches let through.
  abbrev through : Bool → Option (ApiKey R) → ℕ → Str → Str → Option (Option (ApiKey R))
  through required found now model token =
      if is_empty token then (if required then none else some none) else elim found [
        | none ↦ none
        | some key ↦ if valid_key now model key then some (some key) else none
      ]

  through-key :
      (required : Bool) (found : Option (ApiKey R)) (now : ℕ) (model token : Str) (key : ApiKey R)
      → (through required found now model token ≡ some (some key))
        ↔ ((token ≢ []) × (found ≡ some key) × MayCall now model key)
  through-key required found now model [] key = (λ h. absurd (ground arith), λ m. absurd (m.0 refl))
  through-key required none now model (c ∷ s) key = (λ h. absurd (cc), λ m. absurd (cc))
  through-key required (some k) now model (c ∷ s) key = (
    λ h. elim (Bool-cases (valid_key now model k)) [
      | inl e ↦
          let same : k ≡ key = ground arith in
          (λ e'. cc, ap some same, rw (← same) ((valid_key-MayCall now model k).0 e))
      | inr e ↦ absurd (ground arith)
    ],
    λ m.
        let same : k ≡ key = some-injective k key m.1 in
        rw (same, (valid_key-MayCall now model key).1 m.2) refl,
  )

  through-none :
      (required : Bool) (found : Option (ApiKey R)) (now : ℕ) (model token : Str)
      → (through required found now model token ≡ some none) ↔ ((token ≡ []) × (required ≡ false))
  through-none required found now model [] = ground arith
  through-none required none now model (c ∷ s) = (λ h. absurd (cc), λ m. absurd (cc))
  through-none required (some k) now model (c ∷ s) = (λ h. absurd (ground arith), λ m. absurd (cc))

  -- The token that a request presents decides: the request is let through under a key exactly if the
  -- token is not empty, finds the key, and the key is enabled, not past its end, and for the model,
  -- which is so where the request names none, the key lists none, or it lists the one named; and
  -- under no key exactly if the token is empty and none is required. All other requests are refused.
  pub admitted-authenticate :
      (required : Bool) (find : Str → Option (ApiKey R)) (now : ℕ) (h : Headers)
      (endpoint : Endpoint) (model : Str) (w : Writer) (token : Str)
      → Presents h token
      → let who = admitted (authenticate required find now h endpoint model w) in
        ((key : ApiKey R)
          → (who ≡ some (some key))
            ↔ ((token ≢ []) × (find token ≡ some key) × MayCall now model key))
        × ((who ≡ some none) ↔ ((token ≡ []) × (required ≡ false)))
  admitted-authenticate required find now h endpoint model w token presents =
      let same = extract_api_key-Presents h token presents in
      rw (authenticate_cases required find now h endpoint model w, same)
        (
          through-key required (find token) now model token,
          through-none required (find token) now model token,
        )
