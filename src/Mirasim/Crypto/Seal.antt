-- ===== src/Mirasim/Crypto/Seal.antt =====
-- What the relay does with a seal, after docs/PROTOCOL.md, and that it finds the headers in it.
use mirasim2api.Base.{
  ℕ, ◌≡◌, refl, sym, ◌∙◌, Option, some, ◌∷◌, ◌++◌, ◌>>=◌, Str, str, length, take, drop, Map,
  take-append, drop-append, append_assoc,
}
use mirasim2api.Mirasim.Crypto.{
  Aead, Primitives, seal_info, seal_additional, seal_plaintext, seal_headers,
}
use mirasim2api.Mirasim.Crypto.Blob.{IsSound}

abbrev after_parts : ℕ → ℕ → Str → Str
after_parts n m raw = drop m (drop n raw)

-- What the seal is bound to, after docs/PROTOCOL.md.
abbrev bound_to : Primitives → (method path : Str) → Str
bound_to lib method path = str "mrs-seal-v1" ++ 10 ∷ lib.to_upper method ++ 10 ∷ path

-- The public key of 32 bytes, the nonce of 12 and the sealed text, under the relay's private key.
unfoldable pub unseal_headers : Primitives → (relay_priv method path text : Str) → Option Str
unseal_headers lib relay_priv method path text = do
  raw ← lib.raw_url_decode text
  let eph_raw = take 32 raw
  eph_pub ← lib.new_public_key eph_raw
  shared ← lib.ecdh relay_priv eph_pub
  key ← lib.hkdf shared eph_raw (str "mrs-seal-v1") 32
  aead ← lib.chacha20_poly1305 key
  aead.unseal (take 12 (drop 32 raw)) (after_parts 32 12 raw) (bound_to lib method path)

-- What the codings and primitives document.
pub record IsSealing (lib : Primitives) : Type 0 where
  pub std_decode_encode : (s : Str) → lib.std_decode (lib.std_encode s) ≡ some s
  pub url_decode_encode : (s : Str) → lib.raw_url_decode (lib.raw_url_encode s) ≡ some s
  pub length_public : (priv : Str) → length (lib.x25519_public priv) ≡ 32
  pub new_public :
      (priv : Str) → lib.new_public_key (lib.x25519_public priv) ≡ some (lib.x25519_public priv)
  -- Both sides of an exchange get the same secret.
  pub exchanged :
      (a b : Str)
      → (secret : Str) × (lib.ecdh a (lib.x25519_public b) ≡ some secret)
        × (lib.ecdh b (lib.x25519_public a) ≡ some secret)
  pub derived :
      (secret salt info : Str)
      → (key : Str) × (lib.hkdf secret salt info 32 ≡ some key) × (length key ≡ 32)
  pub cipher_of :
      (key : Str)
      → length key ≡ 32
      → (a : Aead) × (lib.chacha20_poly1305 key ≡ some a) × IsSound a × (a.nonce_size ≡ 12)
  pub marshalled : (m : Map Str Str) → (text : Str) × (lib.marshal m ≡ some text)

-- Headers that are sealed for a relay are sealed without an error, and the relay that holds the
-- private key reads the four headers from the seal for the same method and path.
pub unseal-seal_headers :
    (lib : Primitives) (eph nonce relay_priv method path : Str) (headers : Map Str Str)
    → IsSealing lib
    → length nonce ≡ 12
    → (text : Str) × (seal_headers lib eph nonce
          (lib.std_encode (lib.x25519_public relay_priv))
          method
          path
          headers
        ≡ some text)
      × (unseal_headers lib relay_priv method path text ≡ lib.marshal (seal_plaintext headers))
unfolding seal_headers unseal_headers seal_additional
unseal-seal_headers lib eph nonce relay_priv method path headers s hn =
    let eph_pub = lib.x25519_public eph in
    let (secret, ours, theirs) = s.exchanged eph relay_priv in
    let (key, hk, hl) = s.derived secret eph_pub seal_info in
    let (aead, ha, sound, size) = s.cipher_of key hl in
    let (pt, hm) = s.marshalled (seal_plaintext headers) in
    let sealed = aead.seal nonce pt (seal_additional lib method path) in
    let raw = eph_pub ++ nonce ++ sealed in
    let start : take 32 raw ≡ eph_pub =
      rw (append_assoc eph_pub nonce sealed, ← s.length_public eph)
        (take-append eph_pub (nonce ++ sealed)) in
    let rest : drop 32 raw ≡ nonce ++ sealed =
      rw (append_assoc eph_pub nonce sealed, ← s.length_public eph)
        (drop-append eph_pub (nonce ++ sealed)) in
    let middle : take 12 (nonce ++ sealed) ≡ nonce = rw (← hn) (take-append nonce sealed) in
    let end : drop 12 (nonce ++ sealed) ≡ sealed = rw (← hn) (drop-append nonce sealed) in
    (
      lib.raw_url_encode raw,
      rw
          (
            seal_headers,
            s.std_decode_encode (lib.x25519_public relay_priv),
            s.new_public relay_priv,
            ours,
            hk,
            ha,
            hm,
          )
          refl,
      rw
          (
            unseal_headers,
            s.url_decode_encode raw,
            start,
            s.new_public eph,
            theirs,
            hk,
            ha,
            rest,
            middle,
            end,
            hm,
          )
          (sound.unseal_seal nonce pt (seal_additional lib method path) (hn ∙ sym size)),
    )
