-- ===== src/Store/Logs.antt =====
-- internal/store/store.go: the usage logs, their filter, their pages and their summary.
pub mod Totals
use mirasim2api.Base.{
  ℕ, zero, suc, ◌+◌, Bool, true, false, ◌&&◌, ◌||◌, Option, none, some, List, [], ◌∷◌, ◌++◌, Str,
  ltb, leb, ◌==◌, if◌then◌else◌, filter, take, drop, length, number_key, text_key,
}
use mirasim2api.Base.Float.{Float}
use mirasim2api.Pool.Pick.{is_empty}
use mirasim2api.Store.Rows.{UsageLog}
use mirasim2api.Store.Database.{Database}

-- No `since` is the zero time.
pub record LogFilter : Type 0 where
  pub key_id : Str
  pub account_id : Str
  pub model : Str
  pub since : Option ℕ
  pub limit : ℕ
  pub offset : ℕ

module _ {R : Type 0} where
  -- The row's ID is the next one of the table, and its time that of the insertion.
  unfoldable pub add_usage_log : (up : Bool) → ℕ → UsageLog R → Database R → Database R × Bool
  add_usage_log up now l db =
      if up
      then (
        record db {
          usage_logs = db.usage_logs ++ record l { id = suc db.last_log_id; created_at = now } ∷ [];
          last_log_id = suc db.last_log_id;
        },
        true,
      )
      else (db, false)

  -- The conditions that `usageLogWhere` joins with AND.
  unfoldable pub usage_log_where : LogFilter → UsageLog R → Bool
  usage_log_where c l =
      (is_empty c.key_id || l.api_key_id == c.key_id)
      && ((is_empty c.account_id || l.account_id == c.account_id)
          && ((is_empty c.model || l.model == c.model)
              && elim c.since [ none ↦ true | some t ↦ leb t l.created_at ]))

  -- `ORDER BY created_at DESC, id DESC`.
  unfoldable pub newer : UsageLog R → UsageLog R → Bool
  newer a b = ltb b.created_at a.created_at || (a.created_at == b.created_at && leb b.id a.id)

  unfoldable pub place_log : UsageLog R → List (UsageLog R) → List (UsageLog R)
  place_log l [] = l ∷ []
  place_log l (x ∷ xs) = if newer l x then l ∷ x ∷ xs else x ∷ place_log l xs

  unfoldable pub newest_first : List (UsageLog R) → List (UsageLog R)
  newest_first [] = []
  newest_first (l ∷ ls) = place_log l (newest_first ls)

  -- `LIMIT ... OFFSET ...`: a limit of 0 is none.
  unfoldable pub page : ℕ → ℕ → List (UsageLog R) → List (UsageLog R)
  page zero offset ls = drop offset ls
  page (suc limit) offset ls = take (suc limit) (drop offset ls)

  unfoldable pub query_usage_logs : LogFilter → Database R → List (UsageLog R)
  query_usage_logs c db =
      page c.limit c.offset (newest_first (filter (usage_log_where c) db.usage_logs))

  unfoldable pub count_usage_logs : LogFilter → Database R → ℕ
  count_usage_logs c db = length (filter (usage_log_where c) db.usage_logs)

pub record SummaryRow (R : Type 0) : Type 0 where
  pub model : Str
  pub api_key_id : Str
  pub requests : ℕ
  pub input_tokens : ℕ
  pub output_tokens : ℕ
  pub cached_tokens : ℕ
  pub cost : R

module _ {R : Type 0} ⦃f : Float R⦄ where
  abbrev pub add_to_row : UsageLog R → SummaryRow R → SummaryRow R
  add_to_row l r = record r {
    requests = suc r.requests;
    input_tokens = r.input_tokens + l.input_tokens;
    output_tokens = r.output_tokens + l.output_tokens;
    cached_tokens = r.cached_tokens + l.cached_tokens;
    cost = f.add r.cost l.cost;
  }

  abbrev pub row_of : UsageLog R → SummaryRow R
  row_of l = record {
    model = l.model;
    api_key_id = l.api_key_id;
    requests = 1;
    input_tokens = l.input_tokens;
    output_tokens = l.output_tokens;
    cached_tokens = l.cached_tokens;
    cost = l.cost;
  }

  -- `GROUP BY model, api_key_id`: a log joins the row of its group.
  unfoldable pub group_log : UsageLog R → List (SummaryRow R) → List (SummaryRow R)
  group_log l [] = row_of l ∷ []
  group_log l (r ∷ rs) =
      if r.model == l.model && r.api_key_id == l.api_key_id
      then add_to_row l r ∷ rs
      else r ∷ group_log l rs

  unfoldable pub group_logs : List (UsageLog R) → List (SummaryRow R)
  group_logs [] = []
  group_logs (l ∷ ls) = group_log l (group_logs ls)

  -- `ORDER BY SUM(cost) DESC`
  unfoldable pub place_row : SummaryRow R → List (SummaryRow R) → List (SummaryRow R)
  place_row r [] = r ∷ []
  place_row r (x ∷ xs) = if f.le x.cost r.cost then r ∷ x ∷ xs else x ∷ place_row r xs

  unfoldable pub dearest_first : List (SummaryRow R) → List (SummaryRow R)
  dearest_first [] = []
  dearest_first (r ∷ rs) = place_row r (dearest_first rs)

  unfoldable pub usage_summary : Option ℕ → Database R → List (SummaryRow R)
  usage_summary since db = dearest_first (
      group_logs
        (filter (λ l. elim since [ none ↦ true | some t ↦ leb t l.created_at ]) db.usage_logs))
