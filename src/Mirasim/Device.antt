-- ===== src/Mirasim/Device.antt =====
-- internal/mirasim/crypto.go: the device's private key and its PEM text. The encodings of crypto/x509
-- and encoding/pem are a parameter.
use mirasim2api.Base.{◌≡◌, refl, Option, none, some, Str, arith, Option-cases, inl, inr}

-- What `x509.ParsePKCS8PrivateKey` finds.
pub data PrivateKey : Type 0 where
  ed25519 : Str → PrivateKey
  other_key : PrivateKey

pub record KeyCodec : Type 0 where
  pub marshal_pkcs8 : Str → Option Str
  pub parse_pkcs8 : Str → Option PrivateKey
  pub pem_encode : Str → Str
  pub pem_decode : Str → Option Str

unfoldable pub marshal_private_key_pem : KeyCodec → Str → Option Str
marshal_private_key_pem k priv = elim (k.marshal_pkcs8 priv) [
  | none ↦ none
  | some der ↦ some (k.pem_encode der)
]

unfoldable pub ed25519_of : PrivateKey → Option Str
ed25519_of (ed25519 priv) = some priv
ed25519_of other_key = none

unfoldable pub parse_private_key_pem : KeyCodec → Str → Option Str
parse_private_key_pem k text = elim (k.pem_decode text) [
  | none ↦ none
  | some der ↦ elim (k.parse_pkcs8 der) [ none ↦ none | some key ↦ ed25519_of key ]
]

-- What the encodings document.
pub record IsCodec (k : KeyCodec) : Type 0 where
  pub pem_back : (der : Str) → k.pem_decode (k.pem_encode der) ≡ some der
  pub pkcs8_back :
      (priv der : Str) → k.marshal_pkcs8 priv ≡ some der → k.parse_pkcs8 der ≡ some (ed25519 priv)

pub parse-marshal_private_key_pem :
    (k : KeyCodec) (priv text : Str)
    → IsCodec k
    → marshal_private_key_pem k priv ≡ some text
    → parse_private_key_pem k text ≡ some priv
unfolding marshal_private_key_pem parse_private_key_pem ed25519_of
parse-marshal_private_key_pem k priv text c h = elim (Option-cases (k.marshal_pkcs8 priv)) [
  | inl e ↦ absurd (ground arith)
  | inr (der, e) ↦
      let same : k.pem_encode der ≡ text = ground arith in
      rw (parse_private_key_pem, ← same, c.pem_back der, c.pkcs8_back priv der e) refl
]
