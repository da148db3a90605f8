-- ===== src/Gateway/RateLimit/Retry.antt =====
-- The `Retry-After` header: it is never answered by a panic, and it is long enough.
use Prim.Native.Nat.{suc-le-suc}
use native.Mathlib.Nat.{le_trans}
use mirasim2api.Base.{
  ℕ, suc, ◌+◌, ◌-◌, ◌*◌, ◌≤◌, ◌<◌, ◌≡◌, refl, ◌≢◌, sym, ap, subst, List, [], ◌∷◌, Str, arith,
  ==_iff, length, filter, count, length-filter, text_key,
}
use mirasim2api.Pool.Entry.{second}
use mirasim2api.Gateway.RateLimit.{
  Limiter, allowed, panics, limited, hits_of, in_window, rate_window, refusal, allow, retry_seconds,
}
use mirasim2api.Gateway.RateLimit.Window.{hits_of-insert}

length-filter-le : (now : ℕ) (ts : List ℕ) → length (filter (in_window now) ts) ≤ length ts
length-filter-le now [] = omega arith
length-filter-le now (t ∷ ts) = ground (arith, length-filter-le now ts)

-- The rounded wait is over when the oldest hit has left the window.
wait_over : (t now : ℕ) → now + retry_seconds (rate_window + t - now) * second < t + rate_window → ⊥
wait_over t now h = omega arith

oldest_gone :
    (t now : ℕ) (ts : List ℕ)
    → length (filter (in_window (now + retry_seconds (rate_window + t - now) * second)) (t ∷ ts))
      ≤ length ts
oldest_gone t now ts =
    let later = now + retry_seconds (rate_window + t - now) * second in
    ground (arith, length-filter-le later ts, wait_over t now)

-- With no hit in the window there is no refusal with a time to wait.
not_limited :
    (key : Str) (rpm now wait : ℕ) (l : Limiter)
    → filter (in_window now) (hits_of key l) ≡ []
    → (allow key rpm now l).0 ≢ limited wait
unfolding allow refusal
not_limited key rpm now wait l e = ground arith

-- A key with a rate above zero never meets the panic of `kept[0]`.
pub allow-ne-panics :
    (key : Str) (rpm now : ℕ) (l : Limiter) → 0 < rpm → (allow key rpm now l).0 ≢ panics
unfolding allow refusal
allow-ne-panics key rpm now l h = ground arith

-- A refusal keeps the hits of the window and names the time that the oldest has left.
refused_state :
    (key : Str) (rpm now wait t : ℕ) (ts : List ℕ) (l : Limiter)
    → filter (in_window now) (hits_of key l) ≡ t ∷ ts
    → (allow key rpm now l).0 ≡ limited wait
    → (wait ≡ rate_window + t - now) × (hits_of key (allow key rpm now l).1 ≡ t ∷ ts)
unfolding allow refusal
refused_state key rpm now wait t ts l k e =
    ground (arith, hits_of-insert key key (t ∷ ts) l, ==_iff key key)

allow_with_room :
    (key : Str) (rpm now : ℕ) (ts : List ℕ) (l : Limiter)
    → hits_of key l ≡ ts
    → length (filter (in_window now) ts) < rpm
    → (allow key rpm now l).0 ≡ allowed
unfolding allow
allow_with_room key rpm now ts l e h = ground (arith, ap (filter (in_window now)) e)

-- A client that is refused under a rate that its hits do not exceed, and that waits the whole
-- seconds of the `Retry-After` header, is let through if its key saw no other request.
pub retry_after_waits :
    (key : Str) (rpm now wait : ℕ) (l : Limiter)
    → (allow key rpm now l).0 ≡ limited wait
    → count (in_window now) (hits_of key l) ≤ rpm
    → (allow key rpm (now + retry_seconds wait * second) (allow key rpm now l).1).0 ≡ allowed
retry_after_waits key rpm now wait l e h = waits (filter (in_window now) (hits_of key l)) refl
  where
    later : ℕ
    later = now + retry_seconds wait * second

    waits :
        (ts : List ℕ)
        → filter (in_window now) (hits_of key l) ≡ ts
        → (allow key rpm later (allow key rpm now l).1).0 ≡ allowed
    waits [] k = absurd (not_limited key rpm now wait l k e)
    waits (t ∷ ts) k =
        let (w, kept) = refused_state key rpm now wait t ts l k e in
        let gone : length (filter (in_window later) (t ∷ ts)) ≤ length ts =
          subst
            (λ z. length (filter (in_window (now + retry_seconds z * second)) (t ∷ ts)) ≤ length ts)
            (sym w) (oldest_gone t now ts) in
        let full : suc (length ts) ≤ rpm =
          omega (arith, ap length k, length-filter (in_window now) (hits_of key l)) in
        allow_with_room key rpm later (t ∷ ts) (allow key rpm now l).1 kept
          (le_trans (suc-le-suc gone) full)
