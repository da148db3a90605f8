-- ===== src/Gateway/Handler.antt =====
-- internal/gateway/handler.go and auth.go: from the request to the forwarding. The requests of one
-- key meet in the slots and the limiter; each use of one of them is a step under its mutex.
use mirasim2api.Base.{
  ℕ, Bool, true, false, not, ◌&&◌, Option, none, some, List, [], ◌∷◌, ◌++◌, Str, str, ltb, ◌==◌,
  if◌then◌else◌, length, count, take, text_key, number_key,
}
use mirasim2api.Base.Float.{Float}
use mirasim2api.Base.Int.{ℤ, pos, leb_ℤ, pos_part}
use mirasim2api.Base.Json.{Json, number, string, array, object, no_fields, field, items_of}
use mirasim2api.Pool.Entry.{Entry, worst_used_ratio}
use mirasim2api.Pool.Sticky.{Pool}
use mirasim2api.Pool.Pick.{values}
use mirasim2api.Store.Rows.{ApiKey}
use mirasim2api.Gateway.Response.{
  Endpoint, messages, responses, Writer, set_header, write_header, write_body, encoded, bytes,
  write_error,
}
use mirasim2api.Gateway.Slots.{Slotter, receive, acquire}
use mirasim2api.Gateway.RateLimit.{Limiter, allowed, limited, panics, allow, retry_seconds}
use mirasim2api.Gateway.Normalize.{
  claude, gpt, third, model_family, invalid, normalized, NormResult, Codec, normalize,
}
use mirasim2api.Gateway.Attempt.{max_body_bytes}

abbrev pub default_key_concurrency : ℕ
default_key_concurrency = 5

-- `conc`, with the default where the key has none.
unfoldable pub slots_of : ℤ → ℕ
slots_of n = if leb_ℤ n (pos 0) then default_key_concurrency else pos_part n

-- What `acquireKeyLimits` keeps for all requests.
pub record Shared : Type 0 where
  pub slots : Slotter
  pub rates : Limiter

-- How the wait for a slot ends: with one on a channel, or without, where the client may be gone.
pub data Waited : Type 0 where
  slot : (ch : ℕ) → Waited
  no_slot : (client_gone : Bool) → Waited

-- Refused, or let through with the channel whose slot the request holds, if it needs one. A panic
-- of the limiter leaves the slot taken.
pub data Granted : Type 0 where
  denied : Writer → Granted
  granted : Option ℕ → Granted
  crashed : Granted

module _ {R : Type 0} (decimal : ℕ → Str) where
  unfoldable pub check_rate :
      Endpoint → ApiKey R → (ch now : ℕ) → Writer → Shared → Granted × Shared
  check_rate endpoint key ch now w s =
      if ltb 0 key.rate_limit_rpm
      then (let (verdict, rates) = allow key.id key.rate_limit_rpm now s.rates in
          elim verdict [
            | allowed ↦ (granted (some ch), record s { rates = rates })
            | panics ↦ (crashed, record s { rates = rates })
            | limited wait ↦ (
              denied (
                  write_error endpoint 429 (str "rate_limit_error")
                    (str "rate limit exceeded: max "
                      ++ decimal key.rate_limit_rpm
                      ++ str " requests per minute")
                    (set_header (str "Retry-After") (decimal (retry_seconds wait)) w)),
              record { slots = receive ch s.slots; rates = rates },
            )
          ])
      else (granted (some ch), s)

  -- What follows the wait. The slot is taken already in `s`.
  unfoldable pub after_wait : Endpoint → ApiKey R → Waited → ℕ → Writer → Shared → Granted × Shared
  after_wait endpoint key (slot ch) now w s = check_rate endpoint key ch now w s
  after_wait endpoint key (no_slot true) now w s = (denied w, s)
  after_wait endpoint key (no_slot false) now w s = (
    denied (
        write_error endpoint 429 (str "rate_limit_error")
          (str "too many concurrent requests for this api key") w),
    s,
  )

  -- Where no slot is free at once, `gone` says how the wait ends without one.
  unfoldable pub acquire_key_limits :
      Endpoint → Option (ApiKey R) → (gone : Bool) → ℕ → Writer → Shared → Granted × Shared
  acquire_key_limits endpoint none gone now w s = (granted none, s)
  acquire_key_limits endpoint (some key) gone now w s =
      let (taken, slots) = acquire key.id (slots_of key.concurrency) s.slots in
      elim taken [
        | some ch ↦ after_wait endpoint key (slot ch) now w (record s { slots = slots })
        | none ↦ after_wait endpoint key (no_slot gone) now w (record s { slots = slots })
      ]

-- Claude models are served at `/v1/messages` only, GPT models at `/v1/responses` only.
unfoldable pub misrouted : Endpoint → Str → Option Str
misrouted endpoint model = elim (model_family model) [
  | third ↦ none
  | claude ↦ elim endpoint [
    | messages ↦ none
    | _ ↦ some (str "model " ++ model ++ str " is only available at /v1/messages")
  ]
  | gpt ↦ elim endpoint [
    | responses ↦ none
    | _ ↦ some (str "model " ++ model ++ str " is only available at /v1/responses")
  ]
]

-- `cloakMode`: is it strict? A setting that is one of the two modes goes first.
unfoldable pub cloak_strict : Option Str → Str → Bool
cloak_strict cfg setting =
    if setting == str "strict"
    then true
    else if setting == str "relaxed"
    then false
    else elim cfg [ none ↦ false | some mode ↦ mode == str "strict" ]

-- The request up to its authentication; none is a body that cannot be read.
pub data Checked : Type 0 where
  rejected : Writer → Checked
  accepted : NormResult → Checked

unfoldable pub bad_request : Endpoint → Str → Writer → Writer
bad_request endpoint message w = write_error endpoint 400 (str "invalid_request_error") message w

unfoldable pub check_request :
    Codec → Endpoint → (cloak_cfg : Option Str) → Str → Option Str → Writer → Checked
check_request codec endpoint cloak_cfg setting none w =
    rejected (bad_request endpoint (str "failed to read request body") w)
check_request codec endpoint cloak_cfg setting (some raw) w =
    elim (normalize codec endpoint (take max_body_bytes raw) (cloak_strict cloak_cfg setting)) [
      | invalid message ↦ rejected (bad_request endpoint message w)
      | normalized norm ↦ elim (misrouted endpoint norm.model) [
        | some message ↦ rejected (bad_request endpoint message w)
        | none ↦ accepted norm
      ]
    ]

module _ {R : Type 0} ⦃f : Float R⦄ where
  -- `Stats` and the count of `handleHealth`, which takes an account as cooled down only after its
  -- cooldown ends.
  unfoldable pub is_healthy : ℕ → Entry R → Bool
  is_healthy now e =
      e.account.enabled
      && (ltb e.cooldown_until now
          && (not (elim e.limits [ none ↦ false | some l ↦ l.suspended ])
              && f.lt (worst_used_ratio e.limits) f.one))

  unfoldable pub handle_health : (ℕ → Str) → ℕ → Pool R → Writer → Writer
  handle_health decimal now p w =
      write_body
        (encoded (
          object (
            field (str "status") (string (str "ok")) (
              field (str "accounts") (number (decimal (length p.entries))) (
                field (str "available")
                  (number (decimal (count (is_healthy now) (values p.entries)))) no_fields)))))
        (set_header (str "Content-Type") (str "application/json") w)

abbrev pub static_models : List Str
static_models =
    str "claude-opus-5"
    ∷ str "claude-sonnet-5"
    ∷ str "claude-fable-5"
    ∷ str "claude-haiku-4-5"
    ∷ str "claude-opus-4-8"
    ∷ str "gpt-6-astra"
    ∷ str "kimi-k3"
    ∷ str "deepseek-flash"
    ∷ str "deepseek-v4-flash"
    ∷ str "glm-5.3-flash"
    ∷ []

unfoldable pub model_entries : List Str → List Json
model_entries [] = []
model_entries (id ∷ ids) =
    object (
      field (str "id") (string id) (
        field (str "object") (string (str "model")) (
          field (str "created") (number (str "0"))
            (field (str "owned_by") (string (str "mirasim")) no_fields))))
    ∷ model_entries ids

unfoldable pub write_static_models : Writer → Writer
write_static_models w =
    write_body
      (encoded (
        object (
          field (str "object") (string (str "list"))
            (field (str "data") (array (items_of (model_entries static_models))) no_fields))))
      (set_header (str "Content-Type") (str "application/json") w)

-- What the upstream answers to the signed request for its models: a status and a body, if an
-- account was picked and nothing failed.
unfoldable pub list_models : Option (ℕ × Str) → Writer → Writer
list_models none w = write_static_models w
list_models (some (status, body)) w =
    if status == 200
    then write_body (bytes (take max_body_bytes body))
        (write_header 200 (set_header (str "Content-Type") (str "application/json") w))
    else write_static_models w
