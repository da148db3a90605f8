-- ===== src/Gateway/Forward.antt =====
-- internal/gateway/forward.go: `tryEntry` and the loop over the accounts.
pub mod Entries
pub mod Written
pub mod Kept
pub mod Round
pub mod Loop
mod Tests
use mirasim2api.Base.{
  ℕ, zero, suc, ◌+◌, Bool, true, false, not, ◌&&◌, ◌||◌, Option, none, some, List, [], ◌∷◌, ◌++◌,
  Str, str, ltb, leb, ◌==◌, if◌then◌else◌, take, Map, insert, number_key, text_key,
}
use mirasim2api.Base.Float.{Float}
use mirasim2api.Base.Int.{ℤ, pos, ltb_ℤ, ◌+ℤ◌}
use mirasim2api.Base.Text.{contains}
use mirasim2api.Pool.Entry.{Entry, Failure, try_acquire, release}
use mirasim2api.Pool.Pick.{pick}
use mirasim2api.Store.Rows.{ApiKey, UsageLog}
use mirasim2api.Billing.Usage.{Usage}
use mirasim2api.Gateway.Response.{
  Endpoint, endpoint_path, Writer, set_header, write_header, write_error, write_upstream,
}
use mirasim2api.Gateway.Stream.{tee_stream, parse_usage}
use mirasim2api.Gateway.Attempt.{
  Reply, World, Progress, Action, responded, switch_account, Attempt, attempt_of, Sent, over, got,
  body_limit, max_body_bytes, is_exhausted, on_entry, note_failure, note_success, log_status,
  exchange_loop,
}

-- What the request is: the endpoint, whether the client wants a stream, the delay of the capacity
-- retries and their number, the bound on an account's requests.
pub record Job : Type 0 where
  pub endpoint : Endpoint
  pub client_stream : Bool
  pub retries : ℕ
  pub backoff_ms : ℕ
  pub max_concurrency : ℤ
  pub affinity_key : Str

-- `&mirasim.HTTPError{...}`, whose text `error_text` gives.
unfoldable pub http_failure : (ℕ → Str → Str) → Reply → Failure
http_failure error_text reply = record {
  text = error_text reply.status (take body_limit reply.body);
  http_status = some reply.status;
}

module _ {R : Type 0} where
  unfoldable pub count_tries : World R → ℕ → Writer → Writer
  count_tries world zero w = w
  count_tries world (suc n) w =
      set_header (str "x-mirasim2api-capacity-retries") (world.decimal (suc n)) w

  unfoldable pub log_usage : Usage → UsageLog R → UsageLog R
  log_usage u log = record log {
    input_tokens = u.input;
    output_tokens = u.output;
    cached_tokens = u.cached;
  }

  unfoldable pub stream_headers : World R → ℕ → ℕ → Writer → Writer
  stream_headers world status tries w = write_header status (
      count_tries world tries (
        set_header (str "Cache-Control") (str "no-cache")
          (set_header (str "Content-Type") (str "text/event-stream") w)))

  -- A reply that is passed on, as a stream or whole: the usage and the writer.
  unfoldable pub relay : World R → Job → Reply → ℕ → Writer → Usage × Writer
  relay world job reply tries w =
      if job.client_stream && contains (str "text/event-stream") reply.content_type
      then tee_stream world.decoder job.endpoint reply.body
          (stream_headers world reply.status tries w)
      else (
        parse_usage world.decoder job.endpoint (take max_body_bytes reply.body),
        write_upstream reply.status reply.content_type (take max_body_bytes reply.body)
            (count_tries world tries w),
      )

  unfoldable pub succeeded : World R → Job → Str → Reply → ℕ → Progress R → Attempt × Progress R
  succeeded world job id reply tries s =
      let noted = note_success world id s in
      let (usage, w) = relay world job reply tries noted.writer in
      (
        attempt_of responded tries,
        record noted {
          writer = w;
          log = log_usage usage (record (noted.log) { status = reply.status });
        },
      )

  -- A 401: the ticket is dropped, and the caller takes another account.
  unfoldable pub unauthorized : Str → Reply → ℕ → Progress R → Attempt × Progress R
  unauthorized id reply tries s = (
    record (attempt_of switch_account tries) {
      unauthorized = true;
      status = reply.status;
      content_type = reply.content_type;
      body = take body_limit reply.body;
    },
    record s { invalidated = s.invalidated ++ id ∷ [] },
  )

  -- Any other status goes to the client as it is. Only a lack of capacity is no fault of the
  -- account.
  unfoldable pub passed_through :
      World R → (ℕ → Str → Str) → Str → Reply → ℕ → Progress R → Attempt × Progress R
  passed_through world error_text id reply tries s =
      let exhausted = is_exhausted reply in
      let noted =
        if exhausted then s else note_failure world id (http_failure error_text reply) s in
      let err =
        if exhausted then str "model_capacity_exhausted" else world.status_text reply.status in
      let logged = log_status reply.status err noted in
      (
        attempt_of responded tries,
        record logged {
          writer =
              write_upstream reply.status reply.content_type (take body_limit reply.body)
                logged.writer;
        },
      )

  unfoldable pub answer :
      World R → (ℕ → Str → Str) → Job → Str → Sent × Progress R → Attempt × Progress R
  answer world error_text job id (over attempt, s) = (attempt, s)
  answer world error_text job id (got reply tries, s) =
      if reply.status == 401
      then unauthorized id reply tries s
      else if leb 200 reply.status && ltb reply.status 300
      then succeeded world job id reply tries s
      else passed_through world error_text id reply tries s

  -- The attempt on the account `id`, whose slot is given back at the end.
  unfoldable pub try_entry :
      World R → (ℕ → Str → Str) → Job → Str → Progress R → Attempt × Progress R
  try_entry world error_text job id s =
      let started = record s { log = record (s.log) { account_id = id } } in
      let (attempt, t) =
        answer world error_text job id
          (exchange_loop world job.backoff_ms id job.retries 0 started) in
      (attempt, record t { pool = on_entry id release t.pool })

-- What the loop keeps between two accounts.
pub record Tried : Type 0 where
  pub exclude : Map Str Bool
  pub retried_401 : Bool
  pub saw_transport_err : Bool
  pub retries : ℕ

abbrev pub untried : Tried
untried = record { exclude = []; retried_401 = false; saw_transport_err = false; retries = 0 }

-- The loop goes on with another account, or it is over.
pub data Turn : Type 0 where
  again : Tried → Turn
  done : (retries : ℕ) → Turn

module _ {R : Type 0} where
  unfoldable pub give_up : Job → Tried → Progress R → Progress R
  give_up job t s =
      let status = if t.saw_transport_err then 502 else 503 in
      let message =
        if t.saw_transport_err
        then str "upstream transport error: no available account left"
        else str "no available upstream account" in
      let logged = log_status status (str "no available upstream account") s in
      record logged {
        writer = write_error job.endpoint status (str "api_error") message logged.writer;
      }

  -- What follows an attempt on the account `id`.
  unfoldable pub after_attempt : Str → Tried → Attempt × Progress R → Turn × Progress R
  after_attempt id t (attempt, s) = elim attempt.action [
    | responded ↦ (done (t.retries + attempt.capacity_tries), s)
    | switch_account ↦
        if attempt.unauthorized && t.retried_401
        then (let logged = log_status attempt.status (str "upstream 401 after account switch") s in
            (
              done (suc (t.retries + attempt.capacity_tries)),
              record logged {
                writer =
                    write_upstream attempt.status attempt.content_type attempt.body logged.writer;
              },
            ))
        else (
          again (record {
            exclude = insert id true t.exclude;
            retried_401 = t.retried_401 || attempt.unauthorized;
            saw_transport_err = t.saw_transport_err || attempt.transport_err;
            retries = suc (t.retries + attempt.capacity_tries);
          }),
          s,
        )
  ]

  -- An account whose slots are taken is left out; one that has a slot is tried.
  unfoldable pub use_entry :
      World R → (ℕ → Str → Str) → Job → Entry R → Tried → Progress R → Turn × Progress R
  use_entry world error_text job e t s = elim (try_acquire job.max_concurrency e) [
    | none ↦ (again (record t { exclude = insert e.account.id true t.exclude }), s)
    | some _ ↦ after_attempt e.account.id t (
        try_entry world error_text job e.account.id (record s {
          pool = on_entry e.account.id (λ x. record x { inflight = x.inflight +ℤ pos 1 }) s.pool;
        }))
  ]

module _ {R : Type 0} ⦃f : Float R⦄ (world : World R) (error_text : ℕ → Str → Str) (job : Job) where
  -- One round of the loop.
  unfoldable pub turn : Tried → Progress R → Turn × Progress R
  turn t s =
      let (picked, p) =
        pick (world.random s.tick) t.exclude job.affinity_key (world.now s.tick) s.pool in
      let s' = record s { pool = p; tick = suc s.tick } in
      elim picked [
        | none ↦ (done t.retries, give_up job t s')
        | some e ↦ use_entry world error_text job e t s'
      ]

  -- The loop, on fuel: none is a loop that is not over. The number of retries goes to the log line.
  unfoldable pub forward_loop : ℕ → Tried → Progress R → Option (ℕ × Progress R)
  forward_loop zero t s = none
  forward_loop (suc fuel) t s =
      let (outcome, s') = turn t s in
      elim outcome [ done retries ↦ some (retries, s') | again t' ↦ forward_loop fuel t' s' ]
