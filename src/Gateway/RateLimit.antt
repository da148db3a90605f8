-- ===== src/Gateway/RateLimit.antt =====
-- internal/gateway/auth.go: the sliding-window limiter. Times and durations are nanoseconds.
-- `t.After(now.Add(-rateWindow))` is written `now < t + rate_window`, which also holds of clocks
-- before the first minute.
pub mod Window
pub mod Retry
use mirasim2api.Base.{
  ℕ, ◌+◌, ◌-◌, ◌*◌, ◌/◌, Bool, true, false, List, [], ◌∷◌, ◌++◌, Str, ltb, leb, ==_iff, ◌==◌,
  if◌then◌else◌, length, filter, count, Map, lookup, insert, none, some, text_key,
}
use mirasim2api.Pool.Entry.{second, minute}

abbrev pub rate_window : ℕ
rate_window = minute

-- `hits`, where a key that is not there has the nil slice.
abbrev pub Limiter : Type 0
Limiter = Map Str (List ℕ)

abbrev pub hits_of : Str → Limiter → List ℕ
hits_of key l = elim (lookup key l) [ none ↦ [] | some hits ↦ hits ]

-- `panics` is the index out of range of `kept[0]` on an empty slice.
pub data Verdict : Type 0 where
  allowed panics : Verdict
  limited : (retry_after : ℕ) → Verdict

abbrev pub in_window : ℕ → ℕ → Bool
in_window now t = ltb now (t + rate_window)

-- How long the oldest kept hit stays in the window.
unfoldable pub refusal : ℕ → Str → List ℕ → Limiter → Verdict × Limiter
refusal now key [] l = (panics, l)
refusal now key (t ∷ kept) l = (limited (rate_window + t - now), insert key (t ∷ kept) l)

unfoldable pub allow : Str → ℕ → ℕ → Limiter → Verdict × Limiter
unfolding refusal
allow key rpm now l =
    let kept = filter (in_window now) (hits_of key l) in
    if leb rpm (length kept)
    then refusal now key kept l
    else (allowed, insert key (kept ++ now ∷ []) l)

-- `strconv.Itoa(int(retryAfter.Seconds())+1)`, as a number of seconds.
abbrev pub retry_seconds : ℕ → ℕ
retry_seconds retry_after = retry_after / second + 1
