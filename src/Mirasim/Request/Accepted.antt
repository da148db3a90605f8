-- ===== src/Mirasim/Request/Accepted.antt =====
-- A relay that follows docs/PROTOCOL.md, and that it accepts what a client signs.
use mirasim2api.Base.{
  ◌≡◌, Bool, true, Option, some, ◌∷◌, ◌++◌, ◌>>=◌, Str, str, Map, lookup, text_key,
}
use mirasim2api.Base.Text.{cut_prefix}
use mirasim2api.Mirasim.Crypto.{Primitives, value_at}
use mirasim2api.Mirasim.Crypto.Seal.{unseal_headers}
use mirasim2api.Mirasim.Request.{HttpRequest, bytes_of}

pub record Relay : Type 0 where
  -- Where the relay answers; the path of a request stands behind it in the URL.
  pub base_url : Str
  pub relay_priv : Str
  -- The Ed25519 verification of a signature under the public key of the device.
  pub verify : (device_pub message sig : Str) → Bool
  pub read_headers : Str → Option (Map Str Str)

-- What docs/PROTOCOL.md says a signature covers: ten lines, of which the one on the meta headers is
-- empty where there are none. `ts`, `nonce` and `device` are the texts of the sealed headers.
unfoldable pub message_of :
    Primitives → (method path ts nonce device version credential body : Str) → Str
message_of lib method path ts nonce device version credential body =
    let hashes = lib.hex (lib.sha256 credential) ++ (10 ∷ 10 ∷ lib.hex (lib.sha256 body)) in
    let sender = nonce ++ (10 ∷ device ++ (10 ∷ version ++ (10 ∷ hashes))) in
    let target = lib.to_upper method ++ (10 ∷ path ++ (10 ∷ ts ++ (10 ∷ sender))) in
    str "mrs-sig-v2" ++ (10 ∷ target)

-- The relay opens the seal for the request's method and the path in its URL, rebuilds the signed text from what it
-- has received, and verifies the signature. None is a request it cannot read.
unfoldable pub relay_verifies : Primitives → Relay → (device_pub : Str) → HttpRequest → Option Bool
relay_verifies lib r device_pub req = do
  path ← cut_prefix r.base_url req.url
  enc ← lookup (str "x-mirasim-enc") req.headers
  text ← unseal_headers lib r.relay_priv req.method path enc
  sealed ← r.read_headers text
  ticket ← cut_prefix (str "Bearer ") (value_at (str "Authorization") req.headers)
  sig ← lib.raw_url_decode (value_at (str "x-mirasim-sig") sealed)
  let message =
      message_of lib req.method path (value_at (str "x-mirasim-ts") sealed)
        (value_at (str "x-mirasim-nonce") sealed) (value_at (str "x-mirasim-device") sealed)
        (value_at (str "x-mirasim-client") req.headers) ticket (bytes_of req.body)
  some (r.verify device_pub message sig)

-- The relay reads back what JSON codes, and its verification is that of the signatures.
pub record IsFaithful (lib : Primitives) (r : Relay) : Type 0 where
  pub read_marshal :
      (m : Map Str Str) (text : Str) → lib.marshal m ≡ some text → r.read_headers text ≡ some m
  pub verify_sign :
      (priv message : Str)
      → r.verify (lib.pkix_public priv) message (lib.ed25519_sign priv message) ≡ true
