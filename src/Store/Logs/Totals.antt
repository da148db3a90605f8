-- ===== src/Store/Logs/Totals.antt =====
-- No usage is lost or counted twice between the logs and the totals of the dashboard.
use mirasim2api.Base.{
  ℕ, ◌+◌, ◌≡◌, refl, ◌∙◌, inl, inr, Bool, true, ◌&&◌, Option, none, some, List, [], ◌∷◌, Str, arith,
  Bool-cases, ◌==◌, length, filter, Map, insert, text_key, leb,
}
use mirasim2api.Base.Float.{Float}
use mirasim2api.Store.Rows.{UsageLog}
use mirasim2api.Store.Database.{Database}
use mirasim2api.Store.Logs.{
  SummaryRow, row_of, add_to_row, group_log, group_logs, place_row, dearest_first, usage_summary,
}
use mirasim2api.Admin.Summary.{Totals, add_row, totals_at, sum_loop, sum_rows, no_totals}

module _ {R : Type 0} where
  -- A sum over the rows.
  abbrev pub over : (SummaryRow R → ℕ) → List (SummaryRow R) → ℕ
  over g [] = 0
  over g (r ∷ rs) = g r + over g rs

  -- A sum over the logs.
  abbrev pub over_logs : (UsageLog R → ℕ) → List (UsageLog R) → ℕ
  over_logs g [] = 0
  over_logs g (l ∷ ls) = g l + over_logs g ls

  abbrev pub since_test : Option ℕ → UsageLog R → Bool
  since_test since l = elim since [ none ↦ true | some t ↦ leb t l.created_at ]

module _ {R : Type 0} ⦃f : Float R⦄ where
  -- A measure of rows that a log adds to as it does to a measure of logs.
  abbrev Adds : (SummaryRow R → ℕ) → (UsageLog R → ℕ) → Type 0
  Adds g h =
      ((l : UsageLog R) → g (row_of l) ≡ h l)
      × ((l : UsageLog R) (r : SummaryRow R) → g (add_to_row l r) ≡ g r + h l)

  module _ (g : SummaryRow R → ℕ) (h : UsageLog R → ℕ) (adds : Adds g h) where
    over-group_log :
        (l : UsageLog R) (rs : List (SummaryRow R)) → over g (group_log l rs) ≡ h l + over g rs
    unfolding group_log
    over-group_log l [] = omega (arith, adds.0 l)
    over-group_log l (r ∷ rs) =
        elim (Bool-cases (r.model == l.model && r.api_key_id == l.api_key_id)) [
          | inl e ↦ rw e (omega (arith, adds.1 l r))
          | inr e ↦ rw e (omega (arith, over-group_log l rs))
        ]

    over-group_logs : (ls : List (UsageLog R)) → over g (group_logs ls) ≡ over_logs h ls
    unfolding group_logs
    over-group_logs [] = refl
    over-group_logs (l ∷ ls) = omega (arith, over-group_log l (group_logs ls), over-group_logs ls)

  over-place_row :
      (g : SummaryRow R → ℕ) (r : SummaryRow R) (rs : List (SummaryRow R))
      → over g (place_row r rs) ≡ g r + over g rs
  unfolding place_row
  over-place_row g r [] = refl
  over-place_row g r (x ∷ xs) = elim (Bool-cases (f.le x.cost r.cost)) [
    | inl e ↦ rw e refl
    | inr e ↦ rw e (omega (arith, over-place_row g r xs))
  ]

  over-dearest_first :
      (g : SummaryRow R → ℕ) (rs : List (SummaryRow R)) → over g (dearest_first rs) ≡ over g rs
  unfolding dearest_first
  over-dearest_first g [] = refl
  over-dearest_first g (r ∷ rs) =
      omega (arith, over-place_row g r (dearest_first rs), over-dearest_first g rs)

  summed :
      (g : SummaryRow R → ℕ) (h : UsageLog R → ℕ) (since : Option ℕ) (db : Database R)
      → Adds g h
      → over g (usage_summary since db) ≡ over_logs h (filter (since_test since) db.usage_logs)
  unfolding usage_summary
  summed g h since db adds =
      over-dearest_first g (group_logs (filter (since_test since) db.usage_logs))
      ∙ over-group_logs g h adds (filter (since_test since) db.usage_logs)

  -- The loop of the dashboard adds every row to the totals.
  sum_loop-totals :
      (rs : List (SummaryRow R)) (t : Totals R) (m : Map Str (Totals R))
      → let u = (sum_loop rs t m).0 in
        (u.requests ≡ t.requests + over (λ r. r.requests) rs)
        × (u.input_tokens ≡ t.input_tokens + over (λ r. r.input_tokens) rs)
        × (u.output_tokens ≡ t.output_tokens + over (λ r. r.output_tokens) rs)
        × (u.cached_tokens ≡ t.cached_tokens + over (λ r. r.cached_tokens) rs)
  unfolding sum_loop add_row
  sum_loop-totals [] t m = (omega arith, omega arith, omega arith, omega arith)
  sum_loop-totals (r ∷ rs) t m =
      let (a, b, c, d) =
        sum_loop-totals rs (add_row r t) (insert r.model (add_row r (totals_at r.model m)) m) in
      (omega (arith, a), omega (arith, b), omega (arith, c), omega (arith, d))

  one_each : (ls : List (UsageLog R)) → over_logs (λ l. 1) ls ≡ length ls
  one_each [] = refl
  one_each (l ∷ ls) = omega (arith, one_each ls)

  -- The totals that the dashboard shows of a time window, after the store has grouped its logs by
  -- model and key and the handler has summed the rows: the requests are the logs of the window, and
  -- the three counts of tokens are the sums over these logs.
  pub sum_rows-usage_summary :
      (since : Option ℕ) (db : Database R)
      → let t = (sum_rows (usage_summary since db)).0 in
        let logs = filter (since_test since) db.usage_logs in
        (t.requests ≡ length logs)
        × (t.input_tokens ≡ over_logs (λ l. l.input_tokens) logs)
        × (t.output_tokens ≡ over_logs (λ l. l.output_tokens) logs)
        × (t.cached_tokens ≡ over_logs (λ l. l.cached_tokens) logs)
  unfolding sum_rows
  sum_rows-usage_summary since db =
      let rows = usage_summary since db in
      let (a, b, c, d) = sum_loop-totals rows no_totals [] in
      let n = summed (λ r. r.requests) (λ l. 1) since db ((λ l. refl), λ l r. omega arith) in
      let i =
        summed (λ r. r.input_tokens) (λ l. l.input_tokens) since db ((λ l. refl), λ l r. refl) in
      let o =
        summed (λ r. r.output_tokens) (λ l. l.output_tokens) since db ((λ l. refl), λ l r. refl) in
      let k =
        summed (λ r. r.cached_tokens) (λ l. l.cached_tokens) since db ((λ l. refl), λ l r. refl) in
      (
        omega (arith, a, n, one_each (filter (since_test since) db.usage_logs)),
        omega (arith, b, i),
        omega (arith, c, o),
        omega (arith, d, k),
      )
