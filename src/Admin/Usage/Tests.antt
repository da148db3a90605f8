-- ===== src/Admin/Usage/Tests.antt =====
-- The theorems on the pages of the usage log at concrete inputs.
use mirasim2api.Base.{ℕ, ◌≡◌, refl, true, none, [], ◌∷◌, str, str_beq, arith, length, text_key}
use mirasim2api.Base.Int.{negsuc}
use mirasim2api.Store.Database.{Database}
use mirasim2api.Store.Logs.{
  LogFilter, usage_log_where, count_usage_logs, query_usage_logs, page, newest_first, place_log,
  newer,
}
use mirasim2api.Store.Rows.{UsageLog}
use mirasim2api.Admin.Usage.{
  Times, LogQuery, log_page, handle_usage_logs, answer_since, answer_logs, parse_since, filter_of,
  clamp_limit, clamp_offset,
}
use mirasim2api.Admin.Usage.Pages.{pages, found, pages_lem}

abbrev log : ℕ → UsageLog ℕ
log id = record {
  id = id;
  api_key_id = str "k";
  account_id = str "a";
  model = str "m";
  endpoint = str "/v1/messages";
  input_tokens = 10;
  output_tokens = 20;
  cached_tokens = 0;
  cost = 3;
  status = 200;
  err = [];
  duration_ms = 5;
  created_at = id;
}

abbrev database : Database ℕ
database = record {
  accounts = [];
  api_keys = [];
  usage_logs = log 1 ∷ log 2 ∷ log 3 ∷ [];
  settings = [];
  device = none;
  last_log_id = 3;
}

abbrev by_two : LogFilter
by_two = record {
  key_id = str "k";
  account_id = [];
  model = [];
  since = none;
  limit = 2;
  offset = 0;
}

pages_lem_example :
    (pages 2 0 by_two database ≡ found by_two database)
    × (length (found by_two database) ≡ count_usage_logs by_two database)
unfolding count_usage_logs usage_log_where str_beq
pages_lem_example = pages_lem 2 by_two database (omega arith) (omega arith)

abbrev times : Times
times = record {
  rfc3339 = λ s. none;
  parse_int = λ s. none;
  parse_duration = λ s. none;
  atoi = λ s. negsuc 0;
}

abbrev query : LogQuery
query = record {
  key_id = [];
  account_id = [];
  model = [];
  since_text = [];
  limit_text = str "-1";
  offset_text = str "-1";
}

answered :
    handle_usage_logs times 9 true true query database
    ≡ log_page 3 50 0 (log 3 ∷ log 2 ∷ log 1 ∷ [])
unfolding handle_usage_logs answer_since answer_logs parse_since filter_of clamp_limit clamp_offset
    count_usage_logs query_usage_logs usage_log_where page newest_first place_log newer
answered = refl
