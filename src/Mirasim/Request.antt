-- ===== src/Mirasim/Request.antt =====
-- internal/mirasim/client.go: what a client is made of, and the requests it signs. The ticket is what
-- Mirasim/Client hands out. A header's name stands as the source writes it.
pub mod Accepted
use mirasim2api.Base.{Option, none, some, List, [], ◌∷◌, ◌++◌, ◌>>=◌, Str, str, if◌then◌else◌, Map}
use mirasim2api.Base.Int.{ℤ}
use mirasim2api.Pool.Pick.{is_empty}
use mirasim2api.Mirasim.Crypto.{Primitives, SignParams, device_identity, sign_headers, seal_headers}

abbrev pub default_relay_url : Str
default_relay_url = str "https://relay.mirasim.ai"

abbrev pub default_auth_url : Str
default_auth_url = str "https://auth.mirasim.ai"

abbrev pub default_client_version : Str
default_client_version = str "0.0.322"

abbrev pub default_seal_pubkey : Str
default_seal_pubkey = str "HlyNMMeGXryasYLJuYQ/9ksCD4AYVVy1zXKAtJdpJn4="

-- The fields of a client that never change.
pub record Endpoint : Type 0 where
  pub relay_url : Str
  pub auth_url : Str
  pub client_version : Str
  pub seal_pubkey : Str
  pub device_id : Str
  pub device_pub_b64 : Str
  pub device_priv : Str

abbrev or_default : Str → Str → Str
or_default s default = if is_empty s then default else s

-- `NewClientFunc`, but for the transport.
unfoldable pub new_client :
    Primitives → (device_priv relay_url auth_url client_version seal_pubkey : Str) → Endpoint
new_client lib device_priv relay_url auth_url client_version seal_pubkey =
    let (device_id, pub_b64) = device_identity lib device_priv in
    record {
      relay_url = or_default relay_url default_relay_url;
      auth_url = or_default auth_url default_auth_url;
      client_version = or_default client_version default_client_version;
      seal_pubkey = or_default seal_pubkey default_seal_pubkey;
      device_id = device_id;
      device_pub_b64 = pub_b64;
      device_priv = device_priv;
    }

pub record HttpRequest : Type 0 where
  pub method : Str
  pub url : Str
  pub headers : Map Str Str
  pub body : Option Str

-- The bytes of a body, of which nil has none.
abbrev pub bytes_of : Option Str → Str
bytes_of none = []
bytes_of (some b) = b

abbrev pub content_type : Option Str → Map Str Str
content_type none = []
content_type (some b) = (str "Content-Type", str "application/json") ∷ []

-- The request behind the seal.
unfoldable pub sealed_request :
    Endpoint → (enc ticket method path : Str) → (body : Option Str) → HttpRequest
sealed_request c enc ticket method path body = record {
  method = method;
  url = c.relay_url ++ path;
  headers =
      (str "Authorization", str "Bearer " ++ ticket)
      ∷ (str "x-mirasim-client", c.client_version)
      ∷ (str "x-mirasim-enc", enc)
      ∷ content_type body;
  body = body;
}

-- `ts`, `nonce_raw`, `eph` and `nonce` are what the clock and `rand` answer. None is an error.
unfoldable pub signed_request :
    Primitives
    → Endpoint
    → (ts : ℤ) (nonce_raw eph nonce ticket method path : Str) → (body : Option Str)
    → Option HttpRequest
signed_request lib c ts nonce_raw eph nonce ticket method path body = do
  let sign_hdrs = sign_headers lib ts nonce_raw c.device_priv c.device_id (record {
    method = method;
    path = path;
    credential = ticket;
    client_version = c.client_version;
    meta = [];
    body = bytes_of body;
  })
  enc ← seal_headers lib eph nonce c.seal_pubkey method path sign_hdrs
  some (sealed_request c enc ticket method path body)
