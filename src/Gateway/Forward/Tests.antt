-- ===== src/Gateway/Forward/Tests.antt =====
-- A run of the forwarding loop, and its theorems at concrete inputs.
use mirasim2api.Base.{ℕ, ◌≡◌, true, false, none, some, [], ◌∷◌, str, arith, ==_iff, text_key}
use mirasim2api.Base.Float.{micro}
use mirasim2api.Base.Int.{pos}
use mirasim2api.Pool.Entry.{Account, Entry}
use mirasim2api.Pool.Choice.{Keyed}
use mirasim2api.Billing.Usage.{Decoder}
use mirasim2api.Gateway.Response.{idle_writer, messages}
use mirasim2api.Gateway.Attempt.{World, Progress, answered}
use mirasim2api.Gateway.Forward.{Job, untried, forward_loop}
use mirasim2api.Gateway.Forward.Entries.{Loads}
use mirasim2api.Gateway.Forward.Kept.{IsAnswered}
use mirasim2api.Gateway.Forward.Loop.{forward_loop_answers}
use mirasim2api.Gateway.Stream.{tee_stream}
use mirasim2api.Gateway.Stream.Passing.{sent, sent-tee_stream}

abbrev decoder : Decoder
decoder = record { anthropic = λ s. none; responses = λ s. none; chat = λ s. none }

abbrev account : Account
account = record {
  id = str "a";
  email = str "a@b";
  name = str "n";
  provider = str "github";
  refresh_token = str "t";
  enabled = true;
  created_at = 0;
  updated_at = 0;
}

abbrev entry : Entry ℕ
entry = record {
  account = account;
  inflight = pos 0;
  failures = 0;
  cooldown_until = 0;
  limits = none;
  last_error = [];
}

-- An upstream that refuses every token.
abbrev world : World ℕ
world = record {
  exchange = λ n. answered (record { status = 401; content_type = []; body = [] });
  slept = λ n. true;
  now = λ n. n;
  random = λ n. 0;
  decimal = λ n. n ∷ [];
  status_text = λ n. [];
  decoder = decoder;
}

abbrev job : Job
job = record {
  endpoint = messages;
  client_stream = false;
  retries = 2;
  backoff_ms = 1200;
  max_concurrency = pos 5;
  affinity_key = [];
}

abbrev start : Progress ℕ
start = record {
  pool = record { entries = (str "a", entry) ∷ []; sticky = []; lru = []; next_elem = 0 };
  writer = idle_writer;
  log = record {
    id = 0;
    api_key_id = [];
    account_id = [];
    model = str "m";
    endpoint = str "/v1/messages";
    input_tokens = 0;
    output_tokens = 0;
    cached_tokens = 0;
    cost = 0;
    status = 0;
    err = [];
    duration_ms = 0;
    created_at = 0;
  };
  invalidated = [];
  tick = 0;
}

start-Keyed : Keyed start.pool.entries
start-Keyed id e h = ground (arith, ==_iff (str "a") id)

forward_loop_answers_example :
    (retries : ℕ) × (u : Progress ℕ) × (forward_loop world (λ n s. s) job 2 untried start
      ≡ some (retries, u))
    × Loads start.pool.entries u.pool.entries
    × IsAnswered start u
forward_loop_answers_example = forward_loop_answers world (λ n s. s) job untried start start-Keyed

sent-tee_stream_example :
    sent (λ v. str "{}") (tee_stream decoder messages (str "data: 1") idle_writer).1.body
    ≡ str "data: 1"
sent-tee_stream_example =
    sent-tee_stream (λ v. str "{}") decoder messages (str "data: 1") idle_writer
