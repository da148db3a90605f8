-- ===== src/Gateway/Forward/Loop.antt =====
-- The loop over the accounts ends, and leaves one response behind.
use mirasim2api.Base.{
  ℕ, zero, suc, ◌<◌, ◌≡◌, refl, ◌∙◌, ap, inl, inr, not, Option, some, [], ◌∷◌, ◌++◌, Str, arith,
  length, Map, text_key,
}
use mirasim2api.Base.Float.{Float}
use mirasim2api.Pool.Entry.{Entry}
use mirasim2api.Pool.Pick.{excluded}
use mirasim2api.Pool.Choice.{Keyed}
use mirasim2api.Gateway.Attempt.{World, Progress}
use mirasim2api.Gateway.Forward.{Job, Tried, Turn, again, done, turn, forward_loop}
use mirasim2api.Gateway.Forward.Entries.{ids, Loads, Loads-trans}
use mirasim2api.Gateway.Forward.Kept.{IsAnswered}
use mirasim2api.Gateway.Forward.Round.{left, count_le, AfterTurn, turn-AfterTurn}

module _ {R : Type 0} ⦃f : Float R⦄ (world : World R) (error_text : ℕ → Str → Str) (job : Job) where
  -- The loop is over, with every slot given back and one response.
  abbrev pub Ends : ℕ → Tried → Progress R → Type 0
  Ends fuel t s =
      (retries : ℕ) × (u : Progress R) × (forward_loop world error_text job fuel t s
        ≡ some (retries, u))
      × Loads s.pool.entries u.pool.entries
      × IsAnswered s u

  -- What the loop makes of a round.
  after_round : ℕ → Turn × Progress R → Option (ℕ × Progress R)
  after_round fuel r = elim (r.0) [
    | done retries ↦ some (retries, r.1)
    | again t ↦ forward_loop world error_text job fuel t (r.1)
  ]

  forward_loop-round :
      (fuel : ℕ) (t : Tried) (s : Progress R) (r : Turn × Progress R)
      → turn world error_text job t s ≡ r
      → forward_loop world error_text job (suc fuel) t s ≡ after_round fuel r
  unfolding forward_loop after_round
  forward_loop-round fuel t s r e = ap (after_round fuel) e

  Ends-step :
      (fuel : ℕ) (t : Tried) (s : Progress R) (r : Turn × Progress R)
      → turn world error_text job t s ≡ r
      → Keyed s.pool.entries
      → left t.exclude (ids s.pool.entries) < suc fuel
      → AfterTurn t s r
      → ((t' : Tried) (s' : Progress R)
          → Keyed s'.pool.entries
          → left t'.exclude (ids s'.pool.entries) < fuel
          → Ends fuel t' s')
      → Ends (suc fuel) t s
  unfolding after_round
  Ends-step fuel t s (done retries, u) e keyed enough (loads, answered) rest =
      (retries, u, forward_loop-round fuel t s (done retries, u) e, loads, answered)
  Ends-step fuel t s (again t', s') e keyed enough ((same, kept), loads, w, fewer) rest =
      let (retries, u, h, loads', answered) =
        rest t' s' (kept keyed) (rw same (omega (arith, enough, fewer))) in
      (
        retries,
        u,
        forward_loop-round fuel t s (again t', s') e ∙ h,
        Loads-trans s.pool.entries s'.pool.entries u.pool.entries loads loads',
        from_writer u answered w,
      )
    where
      from_writer : (u : Progress R) → IsAnswered s' u → s'.writer ≡ s.writer → IsAnswered s u
      from_writer u (inl h) w = inl (h ∙ ap (λ z. z.statuses ++ u.log.status ∷ []) w)
      from_writer u (inr (h, k)) w = inr (h, k ∙ w)

  forward_loop-Ends :
      (fuel : ℕ) (t : Tried) (s : Progress R)
      → Keyed s.pool.entries
      → left t.exclude (ids s.pool.entries) < fuel
      → Ends fuel t s
  forward_loop-Ends zero t s keyed enough = absurd (omega (arith, enough))
  forward_loop-Ends (suc fuel) t s keyed enough =
      Ends-step fuel t s (turn world error_text job t s) refl keyed enough
        (turn-AfterTurn world error_text job t s keyed) (forward_loop-Ends fuel)

  length-ids : (m : Map Str (Entry R)) → length (ids m) ≡ length m
  length-ids [] = refl
  length-ids ((k, e) ∷ m) = ap suc (length-ids m)

  -- Where entries stand under their account's ID, and whatever the upstream, the clock and the
  -- random source answer, one round more than there are accounts is enough: the loop ends, every
  -- account serves as many requests as before, and either the client has got one status, which is
  -- the one in the usage log, or the log says 499 and nothing was written.
  pub forward_loop_answers :
      (t : Tried) (s : Progress R)
      → Keyed s.pool.entries
      → (retries : ℕ) × (u : Progress R) × (forward_loop world error_text job
            (suc (length s.pool.entries))
            t
            s
          ≡ some (retries, u))
        × Loads s.pool.entries u.pool.entries
        × IsAnswered s u
  forward_loop_answers t s keyed = forward_loop-Ends (suc (length s.pool.entries)) t s keyed (
      omega (
        arith,
        count_le (λ id. not (excluded t.exclude id)) (ids s.pool.entries),
        length-ids s.pool.entries,
      ))
