-- ===== src/Billing/Ledger.antt =====
-- No log is lost or written twice between the recorder's buffer and the table, and the buffer stays
-- below a batch.
use mirasim2api.Base.{
  ℕ, ◌+◌, ◌<◌, ◌≡◌, refl, sym, ◌∙◌, ap, inl, inr, Bool, true, not, ◌||◌, List, [], ◌∷◌, ◌++◌, Str,
  arith, Bool-cases, ltb, leb, length, Map, Option-cases,
}
use mathlib.Core.List.{append_assoc, append-nil}
use mirasim2api.Base.Float.{Float}
use mirasim2api.Pool.Pick.{is_empty}
use mirasim2api.Store.Rows.{UsageLog}
use mirasim2api.Store.Database.{Database}
use mirasim2api.Store.Keys.{add_usage}
use mirasim2api.Store.Logs.{add_usage_log}
use mirasim2api.Billing.Recorder.{
  ModelPrice, PriceSettings, Recorder, flush_batch, refresh_prices, reload_prices, flush_log,
  flush_all, flush, priced, record_log, prices_ttl,
}

-- A log as the table keeps it, but for its ID and its time.
pub record Posting (R : Type 0) : Type 0 where
  pub api_key_id : Str
  pub account_id : Str
  pub model : Str
  pub endpoint : Str
  pub input_tokens : ℕ
  pub output_tokens : ℕ
  pub cached_tokens : ℕ
  pub cost : R
  pub status : ℕ
  pub err : Str
  pub duration_ms : ℕ

module _ {R : Type 0} where
  abbrev pub content : UsageLog R → Posting R
  content l = record {
    api_key_id = l.api_key_id;
    account_id = l.account_id;
    model = l.model;
    endpoint = l.endpoint;
    input_tokens = l.input_tokens;
    output_tokens = l.output_tokens;
    cached_tokens = l.cached_tokens;
    cost = l.cost;
    status = l.status;
    err = l.err;
    duration_ms = l.duration_ms;
  }

  abbrev pub contents : List (UsageLog R) → List (Posting R)
  contents [] = []
  contents (l ∷ ls) = content l ∷ contents ls

  contents-append : (xs ys : List (UsageLog R)) → contents (xs ++ ys) ≡ contents xs ++ contents ys
  contents-append [] ys = refl
  contents-append (x ∷ xs) ys = ap (λ l. content x ∷ l) (contents-append xs ys)

  -- Everything recorded: what stands in the table, then what waits in the buffer.
  abbrev pub ledger : Recorder R × Database R → List (Posting R)
  ledger (r, db) = contents db.usage_logs ++ contents r.buf

-- Every insertion goes through; the totals of the keys may fail.
abbrev pub AllUp : {R : Type 0} → (UsageLog R → Bool × Bool) → Type 0
AllUp {R} answers = (l : UsageLog R) → (answers l).0 ≡ true

module _ {R : Type 0} ⦃f : Float R⦄ where
  flush_log-contents :
      (counted : Bool) (now : ℕ) (l : UsageLog R) (db : Database R)
      → contents (flush_log true counted now l db).usage_logs
        ≡ contents db.usage_logs ++ content l ∷ []
  unfolding flush_log add_usage_log add_usage
  flush_log-contents counted now l db = elim (Bool-cases (is_empty l.api_key_id || not counted)) [
    | inl e ↦ rw e (contents-append db.usage_logs _)
    | inr e ↦ rw e (contents-append db.usage_logs _)
  ]

  module _ (answers : UsageLog R → Bool × Bool) (up : AllUp answers) (now : ℕ) where
    flush_all-contents :
        (ls : List (UsageLog R)) (db : Database R)
        → contents (flush_all answers now ls db).usage_logs ≡ contents db.usage_logs ++ contents ls
    unfolding flush_all
    flush_all-contents [] db = sym (append-nil (contents db.usage_logs))
    flush_all-contents (l ∷ ls) db =
        ap
          (λ b. contents (flush_all answers now ls (flush_log b (answers l).1 now l db)).usage_logs)
          (up l)
        ∙ (flush_all-contents ls (flush_log true (answers l).1 now l db)
            ∙ ap (λ xs. xs ++ contents ls) (flush_log-contents (answers l).1 now l db)
            ∙ append_assoc (contents db.usage_logs) (content l ∷ []) (contents ls))

    pub flush-ledger : (s : Recorder R × Database R) → ledger (flush answers now s) ≡ ledger s
    unfolding flush
    flush-ledger (r, db) =
        append-nil (contents (flush_all answers now r.buf db).usage_logs)
        ∙ flush_all-contents r.buf db

  buf-refresh_prices :
      (defaults : Map Str (ModelPrice R)) (settings : PriceSettings R) (now : ℕ) (r : Recorder R)
      → (refresh_prices defaults settings now r).buf ≡ r.buf
  unfolding refresh_prices reload_prices
  buf-refresh_prices defaults settings now r = elim (Option-cases r.prices) [
    | inl e ↦ rw e refl
    | inr (prices, e) ↦ elim (Bool-cases (ltb now (r.prices_loaded_at + prices_ttl))) [
      | inl c ↦ rw (e, c) refl
      | inr c ↦ rw (e, c) refl
    ]
  ]

  -- A log that is recorded joins the ledger at its end, priced as the recorder prices it then, and
  -- nothing else enters or leaves the ledger; below a batch are left in the buffer.
  pub record_log-ledger :
      (defaults : Map Str (ModelPrice R)) (settings : PriceSettings R)
      (answers : UsageLog R → Bool × Bool) (now : ℕ) (l : UsageLog R) (r : Recorder R)
      (db : Database R)
      → AllUp answers
      → let s = record_log defaults settings answers now l (r, db) in
        (ledger s
          ≡ ledger (r, db) ++ content (priced (refresh_prices defaults settings now r) l) ∷ [])
        × (length s.0.buf < flush_batch)
  unfolding record_log flush
  record_log-ledger defaults settings answers now l r db up =
      let fresh = refresh_prices defaults settings now r in
      let r' = record fresh { buf = fresh.buf ++ priced fresh l ∷ [] } in
      let grows : ledger (r', db) ≡ ledger (r, db) ++ content (priced fresh l) ∷ [] =
        ap (λ xs. contents db.usage_logs ++ xs)
          (contents-append fresh.buf (priced fresh l ∷ [])
            ∙ ap (λ b. contents b ++ content (priced fresh l) ∷ [])
                (buf-refresh_prices defaults settings now r))
        ∙ sym (append_assoc (contents db.usage_logs) (contents r.buf) _) in
      elim (Bool-cases (leb flush_batch (length r'.buf))) [
        | inl e ↦ rw e (flush-ledger answers up now (r', db) ∙ grows, omega arith)
        | inr e ↦ rw e (grows, ground arith)
      ]
