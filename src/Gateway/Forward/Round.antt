-- ===== src/Gateway/Forward/Round.antt =====
-- One round of the loop over the accounts: it ends with a response, or leaves an account out.
use mirasim2api.Base.{
  ℕ, suc, ◌≤◌, ◌<◌, ◌≡◌, refl, sym, ◌∙◌, ap, subst, inl, inr, Bool, true, false, not, ◌&&◌, ◌||◌,
  Option, none, some, List, [], ◌∷◌, ◌++◌, Str, arith, Option-cases, Bool-cases, ◌==◌, ==_iff, In,
  here, there, count, length, Map, insert, lookup-insert, text_key,
}
use mirasim2api.Base.Float.{Float}
use mirasim2api.Pool.Entry.{Entry, release, try_acquire}
use mirasim2api.Pool.Sticky.{Pool}
use mirasim2api.Pool.Pick.{pick, values, excluded}
use mirasim2api.Pool.Choice.{Keyed, Offers, pick-Offers}
use mirasim2api.Pool.Affinity.{entries-pick}
use mirasim2api.Store.Rows.{UsageLog}
use mirasim2api.Gateway.Response.{write_error, write_body, write_header, set_header}
use mirasim2api.Gateway.Attempt.{
  World, Progress, Attempt, Action, responded, switch_account, on_entry, log_status, exchange_loop,
}
use mirasim2api.Gateway.Forward.{
  Job, Tried, Turn, again, done, give_up, after_attempt, use_entry, turn, try_entry, answer,
}
use mirasim2api.Gateway.Forward.Entries.{
  ids, Shape, Shape-trans, Loads, on_entry-Shape, taken, taken-release,
}
use mirasim2api.Gateway.Forward.Written.{one_status, write_upstream-Writes}
use mirasim2api.Gateway.Forward.Kept.{IsAnswered, Outcome, attempt-Attempted}

-- How many of the accounts are not left out.
abbrev pub left : Map Str Bool → List Str → ℕ
left exclude l = count (λ id. not (excluded exclude id)) l

excluded-insert :
    (id j : Str) (exclude : Map Str Bool)
    → excluded (insert id true exclude) j ≡ (id == j || excluded exclude j)
excluded-insert id j exclude = ground (arith, lookup-insert id j true exclude)

left-insert_le :
    (id : Str) (exclude : Map Str Bool) (l : List Str)
    → left (insert id true exclude) l ≤ left exclude l
left-insert_le id exclude [] = omega arith
left-insert_le id exclude (j ∷ l) =
    ground (arith, left-insert_le id exclude l, excluded-insert id j exclude)

-- Leaving out an account that was not left out makes them fewer.
left-insert_lt :
    (id : Str) (exclude : Map Str Bool) (l : List Str)
    → In id l
    → excluded exclude id ≡ false
    → left (insert id true exclude) l < left exclude l
left-insert_lt id exclude [] m h = elim m [ ]
left-insert_lt id exclude (_ ∷ l) here h =
    ground (arith, left-insert_le id exclude l, excluded-insert id id exclude, ==_iff id id)
left-insert_lt id exclude (j ∷ l) (there m) h =
    ground (arith, left-insert_lt id exclude l m h, excluded-insert id j exclude)

pub count_le : (p : Str → Bool) (l : List Str) → count p l ≤ length l
count_le p [] = omega arith
count_le p (x ∷ l) = ground (arith, count_le p l)

module _ {R : Type 0} where
  In-ids : (m : Map Str (Entry R)) {e : Entry R} → In e (values m) → In e.account.id (ids m)
  In-ids [] i = elim i [ ]
  In-ids ((k, e) ∷ m) here = here
  In-ids ((k, x) ∷ m) (there i) = there (In-ids m i)

  -- What one round of the loop leaves.
  abbrev pub AfterTurn : Tried → Progress R → Turn × Progress R → Type 0
  AfterTurn t s (again t', s') =
      Shape s.pool.entries s'.pool.entries
      × Loads s.pool.entries s'.pool.entries
      × (s'.writer ≡ s.writer)
      × (left t'.exclude (ids s.pool.entries) < left t.exclude (ids s.pool.entries))
  AfterTurn t s (done retries, s') = Loads s.pool.entries s'.pool.entries × IsAnswered s s'

  give_up-IsAnswered : (job : Job) (t : Tried) (s : Progress R) → IsAnswered s (give_up job t s)
  unfolding give_up write_error write_body write_header set_header log_status
  give_up-IsAnswered job t s = inl (one_status s.writer.statuses _)

  -- The response of an attempt, or another round without the account.
  after_attempt-AfterTurn :
      (id : Str) (t : Tried) (s : Progress R) (r : Attempt × Progress R)
      → Shape s.pool.entries r.1.pool.entries
      → Loads s.pool.entries r.1.pool.entries
      → Outcome s r.0.action r.1
      → In id (ids s.pool.entries)
      → excluded t.exclude id ≡ false
      → AfterTurn t s (after_attempt id t r)
  unfolding after_attempt log_status
  after_attempt-AfterTurn id t s (attempt, u) shape loads outcome m h =
      by_action attempt.action refl
    where
      by_action :
          (a : Action) → attempt.action ≡ a → AfterTurn t s (after_attempt id t (attempt, u))
      by_action responded e =
          let answered = rw e at outcome in rw (e, after_attempt) (loads, answered)
      by_action switch_account e =
          let same = rw e at outcome in
          elim (Bool-cases (attempt.unauthorized && t.retried_401)) [
            | inl c ↦
                rw (e, after_attempt, c)
                  (
                    loads,
                    inl (
                        write_upstream-Writes attempt.status attempt.content_type attempt.body
                          u.writer
                        ∙ ap (λ w. w.statuses ++ attempt.status ∷ []) same),
                  )
            | inr c ↦
                rw (e, after_attempt, c)
                  (shape, loads, same, left-insert_lt id t.exclude (ids s.pool.entries) m h)
          ]

  -- The pools do not matter to the response.
  Outcome-pools :
      (a : Action) (s u : Progress R) (p q : Pool R) (log : UsageLog R)
      → Outcome (record s { pool = p; log = log }) a u
      → Outcome s a (record u { pool = q })
  Outcome-pools responded s u p q log (inl h) = inl h
  Outcome-pools responded s u p q log (inr h) = inr h
  Outcome-pools switch_account s u p q log h = h

  -- An account that is picked is tried with a slot taken, or left out.
  use_entry-AfterTurn :
      (world : World R) (error_text : ℕ → Str → Str) (job : Job) (e : Entry R) (t : Tried)
      (s : Progress R)
      → In e (values s.pool.entries)
      → excluded t.exclude e.account.id ≡ false
      → AfterTurn t s (use_entry world error_text job e t s)
  unfolding use_entry try_entry
  use_entry-AfterTurn world error_text job e t s m h =
      let id = e.account.id in
      let inside = In-ids s.pool.entries m in
      elim (Option-cases (try_acquire job.max_concurrency e)) [
        | inl c ↦
            rw (c, use_entry)
              (
                (refl, λ k. k),
                λ j. refl,
                refl,
                left-insert_lt id t.exclude (ids s.pool.entries) inside h,
              )
        | inr (x, c) ↦
            let s' = record s {
              pool = on_entry id taken s.pool;
              log = record (s.log) { account_id = id };
            } in
            let r =
              answer world error_text job id
                (exchange_loop world job.backoff_ms id job.retries 0 s') in
            let ((shape, loads), outcome) = attempt-Attempted world error_text job id s' in
            rw (c, use_entry)
              (after_attempt-AfterTurn id t s
                (r.0, record (r.1) { pool = on_entry id release (r.1).pool })
                (Shape-trans s.pool.entries s'.pool.entries _
                  (on_entry-Shape id taken s.pool (λ y. refl))
                  (Shape-trans s'.pool.entries (r.1).pool.entries _ shape
                    (on_entry-Shape id release (r.1).pool (release-account))))
                (taken-release id s.pool (r.1).pool loads)
                (Outcome-pools (r.0).action s (r.1) s'.pool (on_entry id release (r.1).pool) s'.log
                  outcome)
                inside h)
      ]
    where
      release-account : (y : Entry R) → (release y).account.id ≡ y.account.id
      release-account y = unfold release in refl

  -- A pick changes no entry and writes nothing.
  AfterTurn-from :
      (t : Tried) (s : Progress R) (p : Pool R) (r : Turn × Progress R)
      → p.entries ≡ s.pool.entries
      → AfterTurn t (record s { pool = p; tick = suc s.tick }) r
      → AfterTurn t s r
  AfterTurn-from t s p (again t', u) same h =
      subst
        (λ m.
          Shape m u.pool.entries
          × Loads m u.pool.entries
          × (u.writer ≡ s.writer)
          × (left t'.exclude (ids m) < left t.exclude (ids m)))
        same h
  AfterTurn-from t s p (done retries, u) same h =
      subst (λ m. Loads m u.pool.entries × IsAnswered s u) same h

module _ {R : Type 0} ⦃f : Float R⦄ (world : World R) (error_text : ℕ → Str → Str) (job : Job) where
  after_pick :
      (t : Tried) (s : Progress R) (q : Option (Entry R) × Pool R)
      → Offers t.exclude (world.now s.tick) s.pool.entries q.0
      → q.1.entries ≡ s.pool.entries
      → AfterTurn t s (elim (q.0) [
        | none ↦ (done t.retries, give_up job t (record s { pool = q.1; tick = suc s.tick }))
        | some e ↦ use_entry world error_text job e t (record s { pool = q.1; tick = suc s.tick })
      ])
  unfolding give_up log_status
  after_pick t s (none, p) offers same =
      AfterTurn-from t s p
        (done t.retries, give_up job t (record s { pool = p; tick = suc s.tick })) same
        (λ j. refl, give_up-IsAnswered job t (record s { pool = p; tick = suc s.tick }))
  after_pick t s (some e, p) (m, (kept, _)) same = AfterTurn-from t s p _ same (
      use_entry-AfterTurn world error_text job e t (record s { pool = p; tick = suc s.tick })
        (subst (λ l. In e (values l)) (sym same) m) kept)

  pub turn-AfterTurn :
      (t : Tried) (s : Progress R)
      → Keyed s.pool.entries
      → AfterTurn t s (turn world error_text job t s)
  unfolding turn
  turn-AfterTurn t s keyed =
      let u = world.random s.tick in
      let now = world.now s.tick in
      after_pick t s (pick u t.exclude job.affinity_key now s.pool)
        (pick-Offers u t.exclude job.affinity_key now s.pool keyed)
        (entries-pick u t.exclude job.affinity_key now s.pool)
