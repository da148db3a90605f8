-- ===== src/Mirasim/Client/Cache.antt =====
-- A ticket that the client keeps is used until it is about to run out.
use mirasim2api.Base.{ℕ, ◌+◌, ◌*◌, ◌<◌, ◌≡◌, false, Option, none, some, Str, arith, text_key}
use mirasim2api.Pool.Entry.{second}
use mirasim2api.Pool.Pick.{is_empty}
use mirasim2api.Mirasim.Client.{
  Client, RefreshResponse, SessionResponse, is_fresh, need_ticket, store_ticket, get_ticket,
  lifetime, ticket_early_refresh,
}

-- A ticket that was applied for is handed out again without any request until 60 seconds before
-- its end; what the relay and the auth service would answer does not matter, and nothing changes.
pub get_ticket_again :
    (now later : ℕ) (r : SessionResponse) (refresh : Str → Option RefreshResponse)
    (apply : Str → Option SessionResponse) (c : Client)
    → is_empty r.ticket ≡ false
    → later + ticket_early_refresh < now + lifetime 900 r.expires_in * second
    → get_ticket later refresh apply (store_ticket now r c)
      ≡ (some r.ticket, store_ticket now r c, none)
unfolding get_ticket need_ticket is_fresh store_ticket
get_ticket_again now later r refresh apply c e h = ground arith
