-- ===== src/Admin/Summary.antt =====
-- internal/admin/summary.go: the state of the accounts and the sums of the usage.
pub mod Partition
use mirasim2api.Base.{
  ℕ, zero, suc, ◌+◌, ◌≡◌, Bool, true, false, not, ◌&&◌, ◌||◌, Option, none, some, List, [], ◌∷◌,
  ◌++◌, Str, ltb, leb, ◌==◌, if◌then◌else◌, length, take, Map, lookup, insert, text_key, number_key,
}
use mirasim2api.Base.Float.{Float}
use mirasim2api.Pool.Entry.{Entry, Limits, worst_used_ratio}
use mirasim2api.Store.Logs.{SummaryRow}

pub record AccountCounts : Type 0 where
  pub enabled : ℕ
  pub usable : ℕ
  pub cooldown : ℕ
  pub exhausted : ℕ
  pub suspended : ℕ
  pub disabled : ℕ

abbrev pub no_accounts : AccountCounts
no_accounts = record {
  enabled = 0;
  usable = 0;
  cooldown = 0;
  exhausted = 0;
  suspended = 0;
  disabled = 0;
}

abbrev pub is_suspended : {R : Type 0} → Option (Limits R) → Bool
is_suspended none = false
is_suspended (some l) = l.suspended

module _ {R : Type 0} ⦃f : Float R⦄ where
  -- One account of the loop over `Stats`.
  unfoldable pub count_account : ℕ → Entry R → AccountCounts → AccountCounts
  count_account now e c =
      let on = record c { enabled = suc c.enabled } in
      if not e.account.enabled
      then record c { disabled = suc c.disabled }
      else if ltb now e.cooldown_until
      then record on { cooldown = suc on.cooldown }
      else if is_suspended e.limits
      then record on { suspended = suc on.suspended }
      else if f.le f.one (worst_used_ratio e.limits)
      then record on { exhausted = suc on.exhausted }
      else record on { usable = suc on.usable }

  unfoldable pub count_accounts : ℕ → List (Entry R) → AccountCounts → AccountCounts
  count_accounts now [] c = c
  count_accounts now (e ∷ es) c = count_accounts now es (count_account now e c)

-- `usageTotals`, and `modelAgg` under the name of its model.
pub record Totals (R : Type 0) : Type 0 where
  pub requests : ℕ
  pub input_tokens : ℕ
  pub output_tokens : ℕ
  pub cached_tokens : ℕ
  pub cost : R

module _ {R : Type 0} ⦃f : Float R⦄ where
  abbrev pub no_totals : Totals R
  no_totals = record {
    requests = 0;
    input_tokens = 0;
    output_tokens = 0;
    cached_tokens = 0;
    cost = f.zero;
  }

  unfoldable pub add_row : SummaryRow R → Totals R → Totals R
  add_row r t = record {
    requests = t.requests + r.requests;
    input_tokens = t.input_tokens + r.input_tokens;
    output_tokens = t.output_tokens + r.output_tokens;
    cached_tokens = t.cached_tokens + r.cached_tokens;
    cost = f.add t.cost r.cost;
  }

  abbrev pub totals_at : Str → Map Str (Totals R) → Totals R
  totals_at model by_model = elim (lookup model by_model) [ none ↦ no_totals | some t ↦ t ]

  -- The loop over the rows: all of them, and by model.
  unfoldable pub sum_loop :
      List (SummaryRow R) → Totals R → Map Str (Totals R) → Totals R × Map Str (Totals R)
  sum_loop [] t by_model = (t, by_model)
  sum_loop (r ∷ rs) t by_model =
      sum_loop rs (add_row r t) (insert r.model (add_row r (totals_at r.model by_model)) by_model)

  -- Dearer, or as dear with more requests. Go's `==` on costs is neither one being less.
  unfoldable pub ahead : Str × Totals R → Str × Totals R → Bool
  ahead (n, b) (m, a) =
      f.lt a.cost b.cost
      || ((f.le a.cost b.cost && f.le b.cost a.cost) && ltb a.requests b.requests)

  -- The inner loop: the row at `i` against each later one, swapped where that one is ahead.
  unfoldable pub bubble :
      Str × Totals R → List (Str × Totals R) → (Str × Totals R) × List (Str × Totals R)
  bubble a [] = (a, [])
  bubble a (b ∷ bs) =
      let swapped = bubble b bs in
      let same = bubble a bs in
      if ahead b a then (swapped.0, a ∷ swapped.1) else (same.0, b ∷ same.1)

  -- The outer loop, on as many rounds as there are rows.
  unfoldable pub sort_rows : ℕ → List (Str × Totals R) → List (Str × Totals R)
  sort_rows zero rows = rows
  sort_rows (suc n) [] = []
  sort_rows (suc n) (a ∷ rows) = let (best, rest) = bubble a rows in best ∷ sort_rows n rest

  -- `by_model` is in the order in which the runtime iterates.
  unfoldable pub sum_rows : List (SummaryRow R) → Totals R × List (Str × Totals R)
  sum_rows rows =
      let (t, by_model) = sum_loop rows no_totals [] in
      (t, take 10 (sort_rows (length by_model) by_model))
