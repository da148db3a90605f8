-- ===== src/Gateway/Stream/Passing.antt =====
-- The client of a stream gets the upstream's bytes, all of them and in order.
use mirasim2api.Base.{
  ◌≡◌, refl, sym, ◌∙◌, ap, inl, inr, List, [], ◌∷◌, ◌++◌, Str, Bool-cases, ◌==◌, number_key,
}
use mathlib.Core.List.{append_assoc, append-nil}
use mirasim2api.Base.Json.{Json}
use mirasim2api.Billing.Usage.{Decoder}
use mirasim2api.Gateway.Response.{Endpoint, Writer, Chunk, encoded, bytes, write_body}
use mirasim2api.Gateway.Stream.{lines_of, Tee, tee_line, tee_lines, tee_stream}

abbrev pub joined : List Str → Str
joined [] = []
joined (l ∷ ls) = l ++ joined ls

-- The bytes of a body; `encode` is what a JSON encoder writes for a value.
abbrev pub sent : (encode : Json → Str) → List Chunk → Str
sent encode [] = []
sent encode (bytes s ∷ cs) = s ++ sent encode cs
sent encode (encoded v ∷ cs) = encode v ++ sent encode cs

joined-lines_of : (line s : Str) → joined (lines_of line s) ≡ line ++ s
unfolding lines_of
joined-lines_of [] [] = refl
joined-lines_of (c ∷ line) [] = refl
joined-lines_of [] (c ∷ s) = elim (Bool-cases (c == 10)) [
  | inl e ↦ rw e (ap (λ t. c ∷ t) (joined-lines_of [] s))
  | inr e ↦ rw e (joined-lines_of (c ∷ []) s)
]
joined-lines_of (b ∷ line) (c ∷ s) = elim (Bool-cases (c == 10)) [
  | inl e ↦ rw e (
      ap (λ t. (b ∷ line ++ c ∷ []) ++ t) (joined-lines_of [] s)
      ∙ append_assoc (b ∷ line) (c ∷ []) s)
  | inr e ↦ rw e (joined-lines_of (b ∷ line ++ c ∷ []) s ∙ append_assoc (b ∷ line) (c ∷ []) s)
]

sent-append :
    (encode : Json → Str) (cs : List Chunk) (l : Str)
    → sent encode (cs ++ bytes l ∷ []) ≡ sent encode cs ++ l
sent-append encode [] l = append-nil l
sent-append encode (bytes s ∷ cs) l =
    ap (λ t. s ++ t) (sent-append encode cs l) ∙ sym (append_assoc s (sent encode cs) l)
sent-append encode (encoded v ∷ cs) l =
    ap (λ t. encode v ++ t) (sent-append encode cs l)
    ∙ sym (append_assoc (encode v) (sent encode cs) l)

sent-tee_lines :
    (encode : Json → Str) (ls : List Str) (t : Tee) (w : Writer)
    → sent encode (tee_lines ls t w).1.body ≡ sent encode w.body ++ joined ls
unfolding tee_lines write_body
sent-tee_lines encode [] t w = sym (append-nil (sent encode w.body))
sent-tee_lines encode (l ∷ ls) t w =
    sent-tee_lines encode ls (tee_line l t) (write_body (bytes l) w)
    ∙ ap (λ s. s ++ joined ls) (sent-append encode w.body l)
    ∙ append_assoc (sent encode w.body) l (joined ls)

-- Whatever the body of a stream is, its bytes follow what was sent before, and nothing else does,
-- however JSON values that are sent are encoded.
pub sent-tee_stream :
    (encode : Json → Str) (d : Decoder) (endpoint : Endpoint) (body : Str) (w : Writer)
    → sent encode (tee_stream d endpoint body w).1.body ≡ sent encode w.body ++ body
unfolding tee_stream
sent-tee_stream encode d endpoint body w =
    sent-tee_lines encode (lines_of [] body) _ w
    ∙ ap (λ s. sent encode w.body ++ s) (joined-lines_of [] body)
