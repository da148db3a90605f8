-- ===== src/Pool/Report.antt =====
-- internal/pool/pool.go: success and failure reports, and quota snapshots. A report may start a
-- goroutine that refreshes the quota: the second component says whether it does. The two clocks
-- of the source (`p.now` and `time.Now`) are the argument `now`.
use mirasim2api.Base.{
  ℕ, suc, ◌+◌, ◌-◌, ◌*◌, ◌^◌, ◌%◌, Bool, true, false, ◌&&◌, ◌||◌, not, Option, none, some, [], ◌∷◌,
  ◌++◌, Str, ltb, leb, ◌==◌, number_key, if◌then◌else◌, length, take,
}
use mirasim2api.Base.Text.{join_fields}
use mirasim2api.Pool.Entry.{Entry, Limits, Failure, limits_ttl, base_backoff, max_backoff}

-- The three bytes of `…`.
abbrev ellipsis : Str
ellipsis = 0xe2 ∷ 0x80 ∷ 0xa6 ∷ []

unfoldable pub err_summary : Str → Str
err_summary text =
    let s = join_fields 0 false false text in
    if ltb 200 (length s) then take 200 s ++ ellipsis else s

-- `baseBackoff << (failures - 1)` on an int64, with the two tests that follow it. A result from
-- 2 ^ 63 on is negative.
unfoldable pub backoff : ℕ → ℕ
backoff failures =
    let shifted = (base_backoff * 2 ^ (failures - 1)) % 2 ^ 64 in
    if ltb max_backoff shifted || leb (2 ^ 63) shifted then max_backoff else shifted

unfoldable pub is_5xx : Failure → Bool
is_5xx err = elim err.http_status [ none ↦ false | some status ↦ leb 500 status ]

unfoldable pub wants_refresh : Failure → Bool
wants_refresh err = elim err.http_status [
  | none ↦ false
  | some status ↦ status == 401 || status == 403
]

-- What the fetcher answered: an error, nil, or a snapshot.
pub data Fetched (R : Type 0) : Type 0 where
  fails : Fetched R
  empty : Fetched R
  snapshot : Limits R → Fetched R

pub data Refreshed : Type 0 where
  skipped failed stored : Refreshed

module _ {R : Type 0} where
  unfoldable pub penalize : ℕ → Entry R → Entry R
  penalize now e = record e {
    failures = suc e.failures;
    cooldown_until = now + backoff (suc e.failures);
  }

  unfoldable pub report_failure : ℕ → Failure → Entry R → Entry R × Bool
  report_failure now err e =
      let noted = record e { last_error = err_summary err.text } in
      (if is_5xx err then noted else penalize now noted, wants_refresh err)

  -- `time.Since(e.limits.FetchedAt) > limitsTTL`, or no snapshot.
  unfoldable pub stale : ℕ → Option (Limits R) → Bool
  stale now none = true
  stale now (some l) = ltb (l.fetched_at + limits_ttl) now

  unfoldable pub report_success : ℕ → Entry R → Entry R × Bool
  unfolding stale
  report_success now e =
      (record e { failures = 0; cooldown_until = 0; last_error = [] }, stale now e.limits)

  -- `fetched` is what the fetcher would answer; it is asked only where the snapshot is not fresh.
  unfoldable pub refresh_limits : ℕ → Bool → Fetched R → Entry R → Entry R × Refreshed
  unfolding stale
  refresh_limits now force fetched e =
      if not (stale now e.limits) && not force then (e, skipped) else elim fetched [
        | fails ↦ (e, failed)
        | empty ↦ (e, failed)
        | snapshot l ↦ (record e { limits = some (record l { fetched_at = now }) }, stored)
      ]
