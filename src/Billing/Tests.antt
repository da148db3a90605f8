-- ===== src/Billing/Tests.antt =====
-- The theorems on billing at concrete inputs.
use mirasim2api.Base.{ℕ, ◌<◌, ◌≡◌, refl, true, none, [], ◌∷◌, Str, str, length, text_key, Map}
use mirasim2api.Base.Float.{micro}
use mirasim2api.Store.Rows.{UsageLog}
use mirasim2api.Store.Database.{Database}
use mirasim2api.Billing.Recorder.{
  ModelPrice, Recorder, PriceSettings, flush_batch, record_log, refresh_prices, priced,
}
use mirasim2api.Billing.Ledger.{ledger, content, record_log-ledger}

abbrev log : UsageLog ℕ
log = record {
  id = 0;
  api_key_id = str "k";
  account_id = str "a";
  model = str "claude-sonnet-5-2026";
  endpoint = str "/v1/messages";
  input_tokens = 10;
  output_tokens = 20;
  cached_tokens = 0;
  cost = 0;
  status = 200;
  err = [];
  duration_ms = 5;
  created_at = 0;
}

abbrev prices : Map Str (ModelPrice ℕ)
prices =
    (str "claude-sonnet-5", record { input = 3_000_000; output = 15_000_000; cached = 300_000 })
    ∷ []

abbrev recorder : Recorder ℕ
recorder = record { buf = []; prices = none; multiplier = 1_000_000; prices_loaded_at = 0 }

abbrev settings : PriceSettings ℕ
settings = record { custom = none; multiplier = none }

abbrev database : Database ℕ
database = record {
  accounts = [];
  api_keys = [];
  usage_logs = [];
  settings = [];
  device = none;
  last_log_id = 0;
}

record_log-ledger_example :
    (ledger (record_log prices settings (λ l. (true, true)) 7 log (recorder, database))
      ≡ content (priced (refresh_prices prices settings 7 recorder) log) ∷ [])
    × (length (record_log prices settings (λ l. (true, true)) 7 log (recorder, database)).0.buf
        < flush_batch)
record_log-ledger_example =
    record_log-ledger prices settings (λ l. (true, true)) 7 log recorder database (λ l. refl)
