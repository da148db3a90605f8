-- ===== src/Admin/Usage.antt =====
-- internal/admin/usage.go: the pages of the usage log. The parameters of the query stand as the
-- request has them; an absent one is empty.
pub mod Pages
mod Tests
use mirasim2api.Base.{
  ℕ, Bool, true, false, Option, none, some, List, [], ◌∷◌, Str, leb, ltb, if◌then◌else◌, map,
}
use mirasim2api.Base.Int.{ℤ, pos, ◌+ℤ◌, leb_ℤ, ltb_ℤ, pos_part, neg_part, sub_ℕ}
use mirasim2api.Pool.Pick.{is_empty}
use mirasim2api.Store.Database.{Database}
use mirasim2api.Store.Logs.{
  LogFilter, SummaryRow, query_usage_logs, count_usage_logs, usage_summary,
}
use mirasim2api.Store.Rows.{UsageLog}
use mirasim2api.Base.Float.{Float}

-- `time.Parse` and `time.Unix` as Unix seconds, `strconv.ParseInt`, `time.ParseDuration` in seconds
-- and `strconv.Atoi`, of which the program only reads the number.
pub record Times : Type 0 where
  pub rfc3339 : Str → Option ℕ
  pub parse_int : Str → Option ℕ
  pub parse_duration : Str → Option ℤ
  pub atoi : Str → ℤ

pub data Since : Type 0 where
  bad_since : Since
  since : Option ℕ → Since

abbrev before : ℕ → ℤ → ℕ
before now d = pos_part (pos now +ℤ sub_ℕ (neg_part d) (pos_part d))

unfoldable pub parse_since : Times → ℕ → Str → Since
parse_since t now raw = if is_empty raw then since none else elim (t.rfc3339 raw) [
  | some at ↦ since (some at)
  | none ↦ elim (t.parse_int raw) [
    | some n ↦ since (some n)
    | none ↦ elim (t.parse_duration raw) [ some d ↦ since (some (before now d)) | none ↦ bad_since ]
  ]
]

-- 50 where none is given, and at most 500.
unfoldable pub clamp_limit : ℤ → ℕ
clamp_limit n =
    let given = if leb_ℤ n (pos 0) then 50 else pos_part n in if leb given 500 then given else 500

unfoldable pub clamp_offset : ℤ → ℕ
clamp_offset n = if ltb_ℤ n (pos 0) then 0 else pos_part n

pub record LogQuery : Type 0 where
  pub key_id : Str
  pub account_id : Str
  pub model : Str
  pub since_text : Str
  pub limit_text : Str
  pub offset_text : Str

pub data LogAnswer (R : Type 0) : Type 0 where
  bad_request query_fails count_fails : LogAnswer R
  log_page : (total limit offset : ℕ) → List (UsageLog R) → LogAnswer R

unfoldable pub filter_of : Times → LogQuery → (start : Option ℕ) → LogFilter
filter_of t q start = record {
  key_id = q.key_id;
  account_id = q.account_id;
  model = q.model;
  since = start;
  limit = clamp_limit (t.atoi q.limit_text);
  offset = clamp_offset (t.atoi q.offset_text);
}

module _ {R : Type 0} where
  -- `queries` and `counts` say whether the two statements run.
  unfoldable pub answer_logs : (queries counts : Bool) → LogFilter → Database R → LogAnswer R
  answer_logs false counts f db = query_fails
  answer_logs true false f db = count_fails
  answer_logs true true f db =
      log_page (count_usage_logs f db) f.limit f.offset (query_usage_logs f db)

  unfoldable pub answer_since :
      Times → (queries counts : Bool) → LogQuery → Since → Database R → LogAnswer R
  answer_since t queries counts q bad_since db = bad_request
  answer_since t queries counts q (since start) db =
      answer_logs queries counts (filter_of t q start) db

  unfoldable pub handle_usage_logs :
      Times → ℕ → (queries counts : Bool) → LogQuery → Database R → LogAnswer R
  handle_usage_logs t now queries counts q =
      answer_since t queries counts q (parse_since t now q.since_text)

pub data SummaryAnswer (R : Type 0) : Type 0 where
  bad_summary_request summary_fails : SummaryAnswer R
  summary_rows : List (SummaryRow R) → SummaryAnswer R

module _ {R : Type 0} ⦃f : Float R⦄ where
  unfoldable pub handle_usage_summary :
      Times → ℕ → (queries : Bool) → Str → Database R → SummaryAnswer R
  handle_usage_summary t now queries text db = elim (parse_since t now text) [
    | bad_since ↦ bad_summary_request
    | since start ↦ if queries then summary_rows (usage_summary start db) else summary_fails
  ]
