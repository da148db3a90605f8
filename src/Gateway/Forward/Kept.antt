-- ===== src/Gateway/Forward/Kept.antt =====
-- An attempt on an account keeps the pool's shape and counts, and writes one response with the
-- logged status, or none where the client is gone or another account is to be taken.
use mirasim2api.Base.{
  ℕ, zero, suc, ◌≡◌, refl, ◌∙◌, ap, ◌⊎◌, inl, inr, Bool, true, false, ◌&&◌, [], ◌∷◌, ◌++◌, Str,
  arith, Bool-cases, leb, ltb, ◌==◌, number_key, text_key,
}
use mirasim2api.Pool.Entry.{Entry, Failure}
use mirasim2api.Pool.Report.{report_failure, report_success, penalize}
use mirasim2api.Gateway.Attempt.{
  World, Progress, Reply, Exchange, unsigned, broken, answered, Attempt, Action, responded,
  switch_account, Sent, over, got, note_failure, note_success, log_status, log_err, tick_on,
  sign_failed, do_failed, sleep_ended, exchange_loop, is_exhausted, sleep_ctx, backoff_delay,
}
use mirasim2api.Gateway.Forward.{
  Job, succeeded, unauthorized, passed_through, http_failure, answer, log_usage,
}
use mirasim2api.Gateway.Forward.Written.{write_upstream-Writes, relay-Writes}
use mirasim2api.Gateway.Forward.Entries.{
  Shape, Shape-trans, Loads, Loads-trans, on_entry-Shape, on_entry-Loads,
}

Exchange-cases :
    (x : Exchange)
    → ((err : Failure) × (x ≡ unsigned err))
      ⊎ ((err : Failure) × (gone : Bool) × (x ≡ broken err gone))
      ⊎ ((reply : Reply) × (x ≡ answered reply))
Exchange-cases (unsigned err) = inl (err, refl)
Exchange-cases (broken err gone) = inr (inl (err, gone, refl))
Exchange-cases (answered reply) = inr (inr (reply, refl))

module _ {R : Type 0} where
  account-report_failure :
      (now : ℕ) (err : Failure) (e : Entry R)
      → ((report_failure now err e).0.account.id ≡ e.account.id)
        × ((report_failure now err e).0.inflight ≡ e.inflight)
  unfolding report_failure penalize
  account-report_failure now err e = ground arith

  -- The pool as it was, but for backoff, errors and quotas.
  abbrev pub Keeps : Progress R → Progress R → Type 0
  Keeps s t = Shape s.pool.entries t.pool.entries × Loads s.pool.entries t.pool.entries

  pub Keeps-trans : (s t u : Progress R) → Keeps s t → Keeps t u → Keeps s u
  Keeps-trans s t u (a, b) (c, d) = (
    Shape-trans s.pool.entries t.pool.entries u.pool.entries a c,
    Loads-trans s.pool.entries t.pool.entries u.pool.entries b d,
  )

  note_failure-Keeps :
      (world : World R) (id : Str) (err : Failure) (s : Progress R)
      → Keeps s (note_failure world id err s)
  unfolding note_failure
  note_failure-Keeps world id err s = (
    on_entry-Shape id _ s.pool (λ e. (account-report_failure (world.now s.tick) err e).0),
    on_entry-Loads id _ s.pool (λ e. (account-report_failure (world.now s.tick) err e).1),
  )

  note_success-Keeps :
      (world : World R) (id : Str) (s : Progress R) → Keeps s (note_success world id s)
  unfolding note_success report_success
  note_success-Keeps world id s =
      (on_entry-Shape id _ s.pool (λ e. refl), on_entry-Loads id _ s.pool (λ e. refl))

  -- What the client and the log have got: one status in both, or the client is gone.
  abbrev pub IsAnswered : Progress R → Progress R → Type 0
  IsAnswered s t =
      (t.writer.statuses ≡ s.writer.statuses ++ t.log.status ∷ [])
      ⊎ ((t.log.status ≡ 499) × (t.writer ≡ s.writer))

  -- What holds after an attempt, by its action.
  abbrev pub Outcome : Progress R → Action → Progress R → Type 0
  Outcome s responded t = IsAnswered s t
  Outcome s switch_account t = t.writer ≡ s.writer

  abbrev pub AfterSend : Progress R → Sent × Progress R → Type 0
  AfterSend s (over attempt, t) = Keeps s t × Outcome s attempt.action t
  AfterSend s (got reply tries, t) = Keeps s t × (t.writer ≡ s.writer)

  Outcome-trans :
      (s t u : Progress R) (action : Action)
      → t.writer ≡ s.writer
      → Outcome t action u
      → Outcome s action u
  Outcome-trans s t u responded w (inl e) = inl (e ∙ ap (λ z. z.statuses ++ u.log.status ∷ []) w)
  Outcome-trans s t u responded w (inr (e, v)) = inr (e, v ∙ w)
  Outcome-trans s t u switch_account w v = v ∙ w

  -- Steps before that wrote nothing.
  AfterSend-trans :
      (s t : Progress R) (r : Sent × Progress R)
      → Keeps s t
      → t.writer ≡ s.writer
      → AfterSend t r
      → AfterSend s r
  AfterSend-trans s t (over attempt, u) k w (k', v) =
      (Keeps-trans s t u k k', Outcome-trans s t u attempt.action w v)
  AfterSend-trans s t (got reply tries, u) k w (k', v) = (Keeps-trans s t u k k', v ∙ w)

  abbrev pub AfterAttempt : Progress R → Attempt × Progress R → Type 0
  AfterAttempt s (attempt, t) = Keeps s t × Outcome s attempt.action t

  AfterAttempt-trans :
      (s t : Progress R) (r : Attempt × Progress R)
      → Keeps s t
      → t.writer ≡ s.writer
      → AfterAttempt t r
      → AfterAttempt s r
  AfterAttempt-trans s t (attempt, u) k w (k', v) =
      (Keeps-trans s t u k k', Outcome-trans s t u attempt.action w v)

  Keeps-refl : (s : Progress R) → Keeps s s
  Keeps-refl s = ((refl, λ k. k), λ j. refl)

  do_failed-AfterSend :
      (world : World R) (id : Str) (err : Failure) (gone : Bool) (tries : ℕ) (s : Progress R)
      → AfterSend s (do_failed world id err gone tries s)
  unfolding do_failed log_status log_err note_failure
  do_failed-AfterSend world id err true tries s = (Keeps-refl s, inr (refl, refl))
  do_failed-AfterSend world id err false tries s = (note_failure-Keeps world id err s, refl)

  sign_failed-AfterSend :
      (world : World R) (id : Str) (err : Failure) (tries : ℕ) (s : Progress R)
      → AfterSend s (sign_failed world id err tries s)
  unfolding sign_failed note_failure
  sign_failed-AfterSend world id err tries s = (note_failure-Keeps world id err s, refl)

  exchange_loop-AfterSend :
      (world : World R) (ms : ℕ) (id : Str) (retries attempt : ℕ) (s : Progress R)
      → AfterSend s (exchange_loop world ms id retries attempt s)
  unfolding exchange_loop tick_on sleep_ended log_status
  exchange_loop-AfterSend world ms id zero attempt s =
      elim (Exchange-cases (world.exchange s.tick)) [
        | inl (err, e) ↦
            rw (e, exchange_loop) (sign_failed-AfterSend world id err attempt (tick_on s))
        | inr (inl (err, gone, e)) ↦
            rw (e, exchange_loop) (do_failed-AfterSend world id err gone attempt (tick_on s))
        | inr (inr (reply, e)) ↦ rw (e, exchange_loop) (Keeps-refl s, refl)
      ]
  exchange_loop-AfterSend world ms id (suc left) attempt s =
      elim (Exchange-cases (world.exchange s.tick)) [
        | inl (err, e) ↦
            rw (e, exchange_loop) (sign_failed-AfterSend world id err attempt (tick_on s))
        | inr (inl (err, gone, e)) ↦
            rw (e, exchange_loop) (do_failed-AfterSend world id err gone attempt (tick_on s))
        | inr (inr (reply, e)) ↦ elim (Bool-cases (is_exhausted reply)) [
          | inr c ↦ rw (e, exchange_loop, c) (Keeps-refl s, refl)
          | inl c ↦
              elim (Bool-cases (sleep_ctx (backoff_delay ms attempt) (world.slept (suc s.tick)))) [
                | inr w ↦ rw (e, exchange_loop, c, w) (Keeps-refl s, inr (refl, refl))
                | inl w ↦
                    rw (e, exchange_loop, c, w)
                      (exchange_loop-AfterSend world ms id left (suc attempt) (tick_on (tick_on s)))
              ]
        ]
      ]

  succeeded-Attempted :
      (world : World R) (job : Job) (id : Str) (reply : Reply) (tries : ℕ) (s : Progress R)
      → AfterAttempt s (succeeded world job id reply tries s)
  unfolding succeeded note_success log_usage
  succeeded-Attempted world job id reply tries s =
      (note_success-Keeps world id s, inl (relay-Writes world job reply tries s.writer))

  passed_through-Attempted :
      (world : World R) (error_text : ℕ → Str → Str) (id : Str) (reply : Reply) (tries : ℕ)
      (s : Progress R)
      → AfterAttempt s (passed_through world error_text id reply tries s)
  unfolding passed_through log_status note_failure
  passed_through-Attempted world error_text id reply tries s =
      elim (Bool-cases (is_exhausted reply)) [
        | inl e ↦ rw e (Keeps-refl s, inl (write_upstream-Writes reply.status _ _ s.writer))
        | inr e ↦ rw e (
          note_failure-Keeps world id (http_failure error_text reply) s,
          inl (write_upstream-Writes reply.status _ _ s.writer),
        )
      ]

  answer-Attempted :
      (world : World R) (error_text : ℕ → Str → Str) (job : Job) (id : Str) (s : Progress R)
      (r : Sent × Progress R)
      → AfterSend s r
      → AfterAttempt s (answer world error_text job id r)
  unfolding answer unauthorized
  answer-Attempted world error_text job id s (over attempt, t) h = h
  answer-Attempted world error_text job id s (got reply tries, t) (k, w) =
      elim (Bool-cases (reply.status == 401)) [
        | inl e ↦ rw e (k, w)
        | inr e ↦ elim (Bool-cases (leb 200 reply.status && ltb reply.status 300)) [
          | inl c ↦
              rw (e, c)
                (AfterAttempt-trans s t (succeeded world job id reply tries t) k w
                  (succeeded-Attempted world job id reply tries t))
          | inr c ↦
              rw (e, c)
                (AfterAttempt-trans s t (passed_through world error_text id reply tries t) k w
                  (passed_through-Attempted world error_text id reply tries t))
        ]
      ]

  -- An attempt up to the release of its slot.
  pub attempt-Attempted :
      (world : World R) (error_text : ℕ → Str → Str) (job : Job) (id : Str) (s : Progress R)
      → AfterAttempt s
          (answer world error_text job id (exchange_loop world job.backoff_ms id job.retries 0 s))
  attempt-Attempted world error_text job id s =
      answer-Attempted world error_text job id s _
        (exchange_loop-AfterSend world job.backoff_ms id job.retries 0 s)
