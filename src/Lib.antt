-- ===== src/Lib.antt =====
-- mirasim2api: a gateway that offers Anthropic and OpenAI style endpoints to the holders of API keys
-- and forwards their requests to a relay, over a pool of accounts.
--
-- A request passes through these parts. The handler (internal/gateway/handler.go) normalizes its
-- body, checks which endpoint serves its model, authenticates its key, takes a slot of the key and
-- asks the rate limiter. The forwarding loop (internal/gateway/forward.go) picks an account of the
-- pool (internal/pool/pool.go), takes a slot of it, sends the request signed by the account's client
-- (internal/mirasim/client.go), and answers, or leaves the account out and picks another. The usage
-- read out of the response is priced and recorded (internal/billing), and the store
-- (internal/store/store.go) keeps accounts, keys, logs and settings. The admin API (internal/admin)
-- edits and sums up what the store keeps.
--
-- Which file models what:
--   Base: Boolean tests, lists and association lists, texts as lists of bytes, int64 as two parts,
--     float64 as an interface (Float, with fixed-point numbers as its instance), JSON values.
--   Pool/Entry, Report: one account (TryAcquire, Release, usable, weight, WorstUsedRatio,
--     ReportFailure, ReportSuccess, RefreshLimits). Pool/Sticky: setSticky, removeSticky and their
--     LRU list. Pool/Pick: Pick. Pool/Reload: Reload, Add, Get. Pool/Slots: the compare-and-swap
--     loop of TryAcquire and Release as steps of several goroutines.
--   Pool/Choice, Spares, Affinity, Quota, Cooldown, Sticky/Invariant, Sticky/Bound, Sticky/Room: what
--     holds of these.
--   Gateway/Response: errors.go and the response writer. Gateway/Auth, Slots, RateLimit: auth.go.
--     Gateway/Normalize: normalize.go. Gateway/Handler: handler.go, with acquireKeyLimits.
--     Gateway/Stream, Attempt, Forward: forward.go (teeStream, tryEntry, forward).
--   Billing/Usage: usage.go. Billing/Recorder: billing.go.
--   Store/Rows, Database: the rows and tables. Store/Accounts, Keys, Logs, Settings: the operations,
--     with the meaning of their SQL statements; Store/Settings also has internal/runtimecfg.
--   Store/Device: the device's key. Pool/Stats: what the admin API shows of the pool.
--   Admin/Summary: summary.go. Admin/Access: session.go, the guard of admin.go, the checks of keys.go
--     and all of settings.go. Admin/Keys: keys.go. Admin/Accounts: accounts.go. Admin/Flows, Links, Oauth,
--     Pages: oauth.go. Admin/Usage: usage.go.
--   Mirasim/Client: the cached tokens of client.go. Mirasim/Request: its signed requests. Mirasim/Crypto,
--     Device: crypto.go. Mirasim/Toy: small primitives for the tests.
--   Config: internal/config/config.go. Server: internal/server/server.go, the start and the routes.
--   Gateway/RateLimit/Window, RateLimit/Retry, Auth/Admission, Slots/Bound, Normalize/Limit,
--     Stream/Passing, Forward/Entries to Forward/Loop, Billing/Ledger, Billing/Prices, Store/Keys/Lookup,
--     Store/Logs/Totals, Store/Accounts/Unique, Store/Accounts/Reading, Admin/Summary/Partition,
--     Admin/Access/Sessions, Admin/Keys/Limits and Patch, Admin/Accounts/View, Handlers and
--     Joining, Admin/Flows/Lifecycle, Admin/Oauth/Completion, Admin/Links/Carries,
--     Admin/Usage/Pages, Mirasim/Client/Cache, Mirasim/Crypto/Blob, Canonical and Seal,
--     Mirasim/Request/Accepted, Config/Key, Server/Gate, Server/Routes: what holds of these.
--   The Tests modules run the definitions and apply the theorems to concrete inputs.
--
-- Conventions. A method that holds its mutex is one step from state to state. What the world answers
-- is an argument: the clock, the random draws, the iteration order of a map (the order of its list),
-- the exchanges with the relay (Gateway/Attempt.World), and whether a statement of the database goes
-- through. JSON coding, hashes, ciphers, strconv and the UTF-8 test are parameters, since they are
-- the standard library's. Times are nanoseconds, and Unix seconds in the tables; a zero time is 0.
-- A shift that may exceed 64 bits has its wrap-around written out; counters that grow by one do not.
--
-- Bounds and fuel. The loop of setSticky removes an entry each round, so one round more than the map
-- has entries is given. The loop of forward leaves out an account each round that does not end it, so
-- one round more than there are accounts is given. The exchanges of one account recurse on the
-- capacity retries that are left. The sort of the dashboard runs as many rounds as it has rows.
--
-- Not modelled: HTTP exchanges, of which only the answer is an argument, the routes of the admin mux,
-- serving and shutdown, the texts of most error messages, the background loops that call
-- RefreshLimits and Flush by a ticker, log lines, and the desktop shell (cmd/desktop,
-- internal/autostart, deploy), which only call platform services.
mod Base
pub mod Store
pub mod Billing
pub mod Pool
pub mod Gateway
pub mod Admin
pub mod Mirasim
pub mod Config
pub mod Server
