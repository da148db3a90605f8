-- ===== src/Gateway/Forward/Written.antt =====
-- The responses that an attempt writes: one status each.
use mirasim2api.Base.{
  ℕ, zero, suc, ◌≡◌, refl, ◌∙◌, ap, inl, inr, ◌&&◌, List, [], ◌∷◌, ◌++◌, Str, str, Bool-cases,
  text_key,
}
use mirasim2api.Base.Text.{contains}
use mirasim2api.Gateway.Response.{
  Writer, write_body, write_header, set_header, write_upstream, bytes,
}
use mirasim2api.Gateway.Stream.{tee_stream, tee_lines, Tee, lines_of, tee_line}
use mirasim2api.Gateway.Attempt.{World, Reply}
use mirasim2api.Gateway.Forward.{Job, count_tries, stream_headers, relay}

-- What the responses of an attempt write: one status.
abbrev pub Writes : ℕ → Writer → Writer → Type 0
Writes status w w' = w'.statuses ≡ w.statuses ++ status ∷ []

-- A body after a status adds none.
pub one_status :
    (xs : List ℕ) (status : ℕ)
    → elim (xs ++ status ∷ []) as (λ _. List ℕ) [ [] ↦ 200 ∷ [] | x ∷ rest ↦ x ∷ rest ]
      ≡ xs ++ status ∷ []
one_status [] status = refl
one_status (x ∷ xs) status = refl

pub write_upstream-Writes :
    (status : ℕ) (content_type body : Str) (w : Writer)
    → Writes status w (write_upstream status content_type body w)
unfolding write_upstream write_body write_header set_header
write_upstream-Writes status [] body w = one_status w.statuses status
write_upstream-Writes status (c ∷ s) body w = one_status w.statuses status

tee_lines-Writes :
    (status : ℕ) (ls : List Str) (t : Tee) (w w' : Writer)
    → Writes status w w'
    → Writes status w (tee_lines ls t w').1
unfolding tee_lines write_body
tee_lines-Writes status [] t w w' h = h
tee_lines-Writes status (l ∷ ls) t w w' h =
    tee_lines-Writes status ls (tee_line l t) w (write_body (bytes l) w')
      (rw h (one_status w.statuses status))

module _ {R : Type 0} where
  pub count_tries-statuses :
      (world : World R) (tries : ℕ) (w : Writer) → (count_tries world tries w).statuses ≡ w.statuses
  unfolding count_tries set_header
  count_tries-statuses world zero w = refl
  count_tries-statuses world (suc n) w = refl

  stream_headers-Writes :
      (world : World R) (status tries : ℕ) (w : Writer)
      → Writes status w (stream_headers world status tries w)
  unfolding stream_headers write_header set_header
  stream_headers-Writes world status tries w =
      ap (λ xs. xs ++ status ∷ []) (count_tries-statuses world tries _)

  pub relay-Writes :
      (world : World R) (job : Job) (reply : Reply) (tries : ℕ) (w : Writer)
      → Writes reply.status w (relay world job reply tries w).1
  unfolding relay tee_stream
  relay-Writes world job reply tries w =
      elim (Bool-cases
        (job.client_stream && contains (str "text/event-stream") reply.content_type)) [
          | inl e ↦ rw e (
              tee_lines-Writes reply.status (lines_of [] reply.body) _ w _
                (stream_headers-Writes world reply.status tries w))
          | inr e ↦ rw e (
              write_upstream-Writes reply.status reply.content_type _ (count_tries world tries w)
              ∙ ap (λ xs. xs ++ reply.status ∷ []) (count_tries-statuses world tries w))
        ]
