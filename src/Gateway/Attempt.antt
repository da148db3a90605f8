-- ===== src/Gateway/Attempt.antt =====
-- internal/gateway/forward.go: one account's attempt at a request. What the world answers is a
-- `World`, asked by a counter that each question advances: the signed request and its exchange,
-- the sleep, the clock. The quota refreshes that a report starts on its own goroutine are no part
-- of the attempt.
use mirasim2api.Base.{
  ℕ, zero, suc, ◌*◌, ◌^◌, ◌%◌, Bool, true, false, ◌&&◌, ◌||◌, Option, none, some, List, [], ◌++◌,
  Str, str, leb, ◌==◌, if◌then◌else◌, take, lookup, insert, number_key, text_key,
}
use mirasim2api.Base.Int.{ℤ, pos, leb_ℤ, ltb_ℤ}
use mirasim2api.Base.Text.{contains}
use mirasim2api.Pool.Entry.{Entry, Failure}
use mirasim2api.Pool.Sticky.{Pool}
use mirasim2api.Pool.Pick.{is_empty}
use mirasim2api.Pool.Report.{report_failure, report_success}
use mirasim2api.Store.Rows.{UsageLog}
use mirasim2api.Billing.Usage.{Decoder}
use mirasim2api.Gateway.Response.{Writer}

pub record Reply : Type 0 where
  pub status : ℕ
  pub content_type : Str
  pub body : Str

-- `SignedRequest` fails, or `Do` fails (is the client gone?), or there is a reply.
pub data Exchange : Type 0 where
  unsigned : Failure → Exchange
  broken : Failure → (client_gone : Bool) → Exchange
  answered : Reply → Exchange

-- `decimal` is `strconv.Itoa`, `status_text` is `http.StatusText`.
pub record World (R : Type 0) : Type 0 where
  pub exchange : ℕ → Exchange
  pub slept : ℕ → Bool
  pub now : ℕ → ℕ
  pub random : ℕ → R
  pub decimal : ℕ → Str
  pub status_text : ℕ → Str
  pub decoder : Decoder

-- What a request changes. `invalidated` lists the accounts whose ticket was dropped.
pub record Progress (R : Type 0) : Type 0 where
  pub pool : Pool R
  pub writer : Writer
  pub log : UsageLog R
  pub invalidated : List Str
  pub tick : ℕ

pub data Action : Type 0 where
  responded switch_account : Action

pub record Attempt : Type 0 where
  pub action : Action
  pub unauthorized : Bool
  pub transport_err : Bool
  pub capacity_tries : ℕ
  pub status : ℕ
  pub content_type : Str
  pub body : Str

abbrev pub attempt_of : Action → ℕ → Attempt
attempt_of action tries = record {
  action = action;
  unauthorized = false;
  transport_err = false;
  capacity_tries = tries;
  status = 0;
  content_type = [];
  body = [];
}

abbrev pub transport_attempt : ℕ → Attempt
transport_attempt tries = record (attempt_of switch_account tries) { transport_err = true }

-- The settings: `cfg` holds the capacity retries and the backoff in milliseconds.
unfoldable pub capacity_retries : (Str → Option ℤ) → Option (ℤ × ℤ) → Str → ℤ
capacity_retries atoi cfg setting =
    let base : ℤ = elim cfg [ none ↦ pos 2 | some (retries, ms) ↦ retries ] in
    if is_empty setting
    then base
    else elim (atoi setting) [ none ↦ base | some n ↦ if leb_ℤ (pos 0) n then n else base ]

unfoldable pub capacity_backoff_ms : (Str → Option ℤ) → Option (ℤ × ℤ) → Str → ℤ
capacity_backoff_ms atoi cfg setting =
    let base : ℤ = elim cfg [ none ↦ pos 1200 | some (retries, ms) ↦ ms ] in
    if is_empty setting
    then base
    else elim (atoi setting) [ none ↦ base | some n ↦ if ltb_ℤ (pos 0) n then n else base ]

-- `backoffMS*(1<<attempt)` milliseconds in an int64 of nanoseconds, for a backoff above 0.
unfoldable pub backoff_delay : ℕ → ℕ → ℕ
backoff_delay ms attempt = ms * 2 ^ attempt * 1_000_000 % 2 ^ 64

-- `sleepCtx`: a delay that is not above 0 is over at once.
unfoldable pub sleep_ctx : ℕ → Bool → Bool
sleep_ctx delay slept = if delay == 0 || leb (2 ^ 63) delay then true else slept

abbrev pub body_limit : ℕ
body_limit = 2 ^ 20

abbrev pub max_body_bytes : ℕ
max_body_bytes = 8 * 2 ^ 20

unfoldable pub is_exhausted : Reply → Bool
is_exhausted reply =
    reply.status == 503 && contains (str "model_capacity_exhausted") (take body_limit reply.body)

-- The attempt is over, or it has a reply after so many capacity retries.
pub data Sent : Type 0 where
  over : Attempt → Sent
  got : Reply → (tries : ℕ) → Sent

module _ {R : Type 0} where
  -- A change of the entry that the request holds.
  unfoldable pub on_entry : Str → (Entry R → Entry R) → Pool R → Pool R
  on_entry id change p = elim (lookup id p.entries) [
    | none ↦ p
    | some e ↦ record p { entries = insert id (change e) p.entries }
  ]

  unfoldable pub note_failure : World R → Str → Failure → Progress R → Progress R
  note_failure world id err s = record s {
    pool = on_entry id (λ e. (report_failure (world.now s.tick) err e).0) s.pool;
    tick = suc s.tick;
  }

  unfoldable pub note_success : World R → Str → Progress R → Progress R
  note_success world id s = record s {
    pool = on_entry id (λ e. (report_success (world.now s.tick) e).0) s.pool;
    tick = suc s.tick;
  }

  unfoldable pub log_status : ℕ → Str → Progress R → Progress R
  log_status status err s = record s { log = record (s.log) { status = status; err = err } }

  unfoldable pub log_err : Str → Progress R → Progress R
  log_err err s = record s { log = record (s.log) { err = err } }

  unfoldable pub tick_on : Progress R → Progress R
  tick_on s = record s { tick = suc s.tick }

  -- An exchange that fails.
  unfoldable pub sign_failed : World R → Str → Failure → ℕ → Progress R → Sent × Progress R
  sign_failed world id err tries s = (over (transport_attempt tries), note_failure world id err s)

  unfoldable pub do_failed : World R → Str → Failure → Bool → ℕ → Progress R → Sent × Progress R
  do_failed world id err true tries s = (
    over (attempt_of responded tries),
    log_status 499 (str "client disconnected: " ++ err.text) s,
  )
  do_failed world id err false tries s = (
    over (transport_attempt tries),
    log_err (str "upstream transport error: " ++ err.text) (note_failure world id err s),
  )

  unfoldable pub sleep_ended : ℕ → Progress R → Sent × Progress R
  sleep_ended tries s = (
    over (attempt_of responded tries),
    log_status 499 (str "client disconnected during capacity backoff") s,
  )

  -- The loop over the exchanges: `retries` are left of the capacity retries.
  unfoldable pub exchange_loop :
      World R → (ms : ℕ) → Str → (retries attempt : ℕ) → Progress R → Sent × Progress R
  exchange_loop world ms id zero attempt s = elim (world.exchange s.tick) [
    | unsigned err ↦ sign_failed world id err attempt (tick_on s)
    | broken err gone ↦ do_failed world id err gone attempt (tick_on s)
    | answered reply ↦ (got reply attempt, tick_on s)
  ]
  exchange_loop world ms id (suc left) attempt s = elim (world.exchange s.tick) [
    | unsigned err ↦ sign_failed world id err attempt (tick_on s)
    | broken err gone ↦ do_failed world id err gone attempt (tick_on s)
    | answered reply ↦ elim (is_exhausted reply) [
      | false ↦ (got reply attempt, tick_on s)
      | true ↦ elim (sleep_ctx (backoff_delay ms attempt) (world.slept (suc s.tick))) [
        | false ↦ sleep_ended (suc attempt) (tick_on (tick_on s))
        | true ↦ exchange_loop world ms id left (suc attempt) (tick_on (tick_on s))
      ]
    ]
  ]
