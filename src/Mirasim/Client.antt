-- ===== src/Mirasim/Client.antt =====
-- internal/mirasim/client.go: the tokens that a client keeps. A refresh reads the state under the
-- mutex, asks without it, and writes under it again: two steps, between which other goroutines may
-- take theirs. Times are nanoseconds, and a zero `time.Time` is 0.
pub mod Cache
use mirasim2api.Base.{
  ℕ, ◌+◌, ◌*◌, Bool, not, ◌&&◌, Option, none, some, [], Str, ltb, ◌==◌, if◌then◌else◌, text_key,
}
use mirasim2api.Base.Int.{ℤ, pos, leb_ℤ, pos_part}
use mirasim2api.Pool.Entry.{second}
use mirasim2api.Pool.Pick.{is_empty}

abbrev pub access_token_early_refresh : ℕ
access_token_early_refresh = 120 * second

abbrev pub ticket_early_refresh : ℕ
ticket_early_refresh = 60 * second

pub record Client : Type 0 where
  pub refresh_token : Str
  pub access_token : Str
  pub access_exp : ℕ
  pub ticket : Str
  pub ticket_exp : ℕ

-- `now.Before(exp.Add(-early))` with a token.
unfoldable pub is_fresh : (early now : ℕ) (token : Str) (exp : ℕ) → Bool
is_fresh early now token exp = not (is_empty token) && ltb (now + early) exp

-- The first step of `AccessToken`: a cached token, or the refresh token to send.
pub data Need : Type 0 where
  cached : Str → Need
  ask : (refresh_token : Str) → Need

unfoldable pub need_access : ℕ → Client → Need
need_access now c =
    if is_fresh access_token_early_refresh now c.access_token c.access_exp
    then cached c.access_token
    else ask c.refresh_token

pub record RefreshResponse : Type 0 where
  pub access_token : Str
  pub refresh_token : Str
  pub expires_in : ℤ

-- Seconds to live, with a default where the answer has none.
unfoldable pub lifetime : ℕ → ℤ → ℕ
lifetime default n = if leb_ℤ n (pos 0) then default else pos_part n

unfoldable pub rotates : RefreshResponse → Client → Bool
rotates r c = not (is_empty r.refresh_token) && not (r.refresh_token == c.refresh_token)

-- The last step: the client with the answer, and the token to hand to `OnRotate`, if it changed.
unfoldable pub store_access : ℕ → RefreshResponse → Client → Client × Option Str
store_access now r c =
    let c' = record c {
      access_token = r.access_token;
      access_exp = now + lifetime 3600 r.expires_in * second;
    } in
    if rotates r c
    then (record c' { refresh_token = r.refresh_token }, some r.refresh_token)
    else (c', none)

unfoldable pub need_ticket : ℕ → Client → Option Str
need_ticket now c =
    if is_fresh ticket_early_refresh now c.ticket c.ticket_exp then some c.ticket else none

pub record SessionResponse : Type 0 where
  pub ticket : Str
  pub expires_in : ℤ

unfoldable pub store_ticket : ℕ → SessionResponse → Client → Client
store_ticket now r c = record c {
  ticket = r.ticket;
  ticket_exp = now + lifetime 900 r.expires_in * second;
}

unfoldable pub invalidate_ticket : Client → Client
invalidate_ticket c = record c { ticket = []; ticket_exp = 0 }

-- `AccessToken` where no other goroutine comes between: none is a failed refresh.
unfoldable pub access_token :
    ℕ → (Str → Option RefreshResponse) → Client → Option Str × Client × Option Str
access_token now refresh c = elim (need_access now c) [
  | cached token ↦ (some token, c, none)
  | ask sent ↦ elim (refresh sent) [
    | none ↦ (none, c, none)
    | some r ↦ let (c', rotated) = store_access now r c in (some r.access_token, c', rotated)
  ]
]

-- `Ticket` likewise, which asks for the access token first.
unfoldable pub get_ticket :
    ℕ
    → (Str → Option RefreshResponse)
    → (Str → Option SessionResponse)
    → Client
    → Option Str × Client × Option Str
get_ticket now refresh apply c = elim (need_ticket now c) [
  | some ticket ↦ (some ticket, c, none)
  | none ↦
      let (token, c', rotated) = access_token now refresh c in
      elim token [
        | none ↦ (none, c', rotated)
        | some bearer ↦ elim (apply bearer) [
          | none ↦ (none, c', rotated)
          | some r ↦ (some r.ticket, store_ticket now r c', rotated)
        ]
      ]
]
