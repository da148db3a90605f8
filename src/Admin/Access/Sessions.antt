-- ===== src/Admin/Access/Sessions.antt =====
-- A session token verifies until it expires, and a token that verifies carries its own signature.
use mirasim2api.Base.{
  ℕ, ◌≡◌, refl, ◌∙◌, ap, Bool, true, false, not, none, some, [], ◌∷◌, ◌++◌, Str, str, arith,
  Option-cases, inl, inr, ltb, ◌==◌, ==_iff, all_b, number_key, text_key,
}
use mirasim2api.Base.Int.{pos}
use mirasim2api.Pool.Pick.{is_empty}
use mirasim2api.Admin.Access.{
  Session, dot, cut_last, cut_first, three_parts, session_payload, new_session_token, is_current,
  verify_session_token,
}

-- A text without a dot.
abbrev pub no_dot : Str → Bool
no_dot s = all_b (λ c. not (c == dot)) s

cut_last-none : (s : Str) → no_dot s ≡ true → cut_last s ≡ none
unfolding cut_last
cut_last-none [] h = refl
cut_last-none (c ∷ s) h = ground (arith, cut_last-none s)

cut_last-some :
    (before after : Str)
    → no_dot after ≡ true
    → cut_last (before ++ dot ∷ after) ≡ some (before, after)
unfolding cut_last
cut_last-some [] after h = ground (arith, cut_last-none after h)
cut_last-some (c ∷ before) after h = rw (cut_last-some before after h) refl

cut_first-some :
    (before after : Str)
    → no_dot before ≡ true
    → cut_first (before ++ dot ∷ after) ≡ some (before, after)
unfolding cut_first
cut_first-some [] after h = refl
cut_first-some (c ∷ before) after h = ground (arith, cut_first-some before after)

-- What cutting yields stands in the text.
cut_last-inv :
    (s before after : Str) → cut_last s ≡ some (before, after) → s ≡ before ++ dot ∷ after
unfolding cut_last
cut_last-inv [] before after h = absurd (cc)
cut_last-inv (c ∷ s) before after h = elim (Option-cases (cut_last s)) [
  | inl e ↦ ground (arith)
  | inr ((b, a), e) ↦ ground (arith, cut_last-inv s b a e)
]

-- The signature is hex text that decodes to what it codes, and the time is digits that parse.
pub record IsSound (s : Session) : Type 0 where
  pub unhex_hex : (t : Str) → s.unhex (s.hex t) ≡ some t
  pub hex_no_dot : (t : Str) → no_dot (s.hex t) ≡ true
  pub parse_decimal : (n : ℕ) → s.parse_int (s.decimal n) ≡ some (pos n)
  pub decimal_no_dot : (n : ℕ) → no_dot (s.decimal n) ≡ true

three_parts-payload :
    (s : Session) (sound : IsSound s) (expires : ℕ) (nonce : Str)
    → three_parts (session_payload s expires nonce) ≡ some (str "v1", s.decimal expires)
unfolding three_parts session_payload cut_first
three_parts-payload s sound expires nonce =
    ground (arith, cut_first-some (s.decimal expires) nonce (sound.decimal_no_dot expires))

is_current-payload :
    (s : Session) (sound : IsSound s) (now expires : ℕ) (nonce : Str)
    → is_current s now (session_payload s expires nonce) ≡ ltb now expires
unfolding is_current
is_current-payload s sound now expires nonce = ground (
  arith,
  three_parts-payload s sound expires nonce,
  sound.parse_decimal expires,
  ==_iff (str "v1") (str "v1"),
)

is_empty-payload :
    (s : Session) (expires : ℕ) (nonce : Str) → is_empty (session_payload s expires nonce) ≡ false
unfolding session_payload
is_empty-payload s expires nonce = refl

-- Where the coding of hex and of digits is sound, a token made for a time of expiry verifies exactly
-- before that time, whatever the nonce is.
pub verify-new_session_token :
    (s : Session) (sound : IsSound s) (now expires : ℕ) (nonce : Str)
    → verify_session_token s now (new_session_token s expires nonce) ≡ ltb now expires
unfolding verify_session_token new_session_token
verify-new_session_token s sound now expires nonce =
    let payload = session_payload s expires nonce in
    ground (
      arith,
      cut_last-some payload (s.hex (s.hmac payload)) (sound.hex_no_dot (s.hmac payload)),
      sound.unhex_hex (s.hmac payload),
      is_current-payload s sound now expires nonce,
      is_empty-payload s expires nonce,
      ==_iff (s.hmac payload) (s.hmac payload),
    )

-- A token that verifies is a payload, a dot and the hex of the payload's own signature, and the
-- payload names a time that is not over.
pub verify_session_token_signed :
    (s : Session) (now : ℕ) (token : Str)
    → verify_session_token s now token ≡ true
    → (payload : Str) × (sig_hex : Str) × (token ≡ payload ++ dot ∷ sig_hex)
      × (s.unhex sig_hex ≡ some (s.hmac payload))
      × (is_current s now payload ≡ true)
unfolding verify_session_token
verify_session_token_signed s now token h = elim (Option-cases (cut_last token)) [
  | inl e ↦ absurd (ground arith)
  | inr ((payload, sig_hex), e) ↦ elim (Option-cases (s.unhex sig_hex)) [
    | inl d ↦ absurd (ground arith)
    | inr (sig, d) ↦
        let good : (sig == s.hmac payload) ≡ true = ground arith in
        (
          payload,
          sig_hex,
          cut_last-inv token payload sig_hex e,
          d ∙ ap some ((==_iff sig (s.hmac payload)).0 good),
          ground arith,
        )
  ]
]
