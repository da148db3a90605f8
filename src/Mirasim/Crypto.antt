-- ===== src/Mirasim/Crypto.antt =====
-- internal/mirasim/crypto.go: the encryption of what the store keeps, the text that a request's
-- signature covers, the signature headers and their seal. The codings, hashes, ciphers and curves of
-- the standard library are a parameter; what the source reads from `rand` is an argument.
pub mod Blob
pub mod Canonical
pub mod Seal
use mirasim2api.Base.{
  ℕ, ◌+◌, ◌-◌, Bool, true, false, ◌&&◌, ◌||◌, Option, none, some, List, [], ◌∷◌, ◌++◌, Str, str,
  ltb, ◌==◌, if◌then◌else◌, length, take, drop, Map, lookup, text_key, number_key, ◌>>=◌,
}
use mirasim2api.Base.Int.{ℤ}
use mirasim2api.Base.Json.{Fields}
use mirasim2api.Base.Text.{cut_prefix, split_on}

-- `cipher.AEAD`
pub record Aead : Type 0 where
  pub nonce_size : ℕ
  pub overhead : ℕ
  pub seal : (nonce plaintext additional : Str) → Str
  pub unseal : (nonce sealed additional : Str) → Option Str

pub record Primitives : Type 0 where
  pub std_encode : Str → Str
  pub std_decode : Str → Option Str
  pub raw_url_encode : Str → Str
  pub raw_url_decode : Str → Option Str
  pub hex : Str → Str
  pub sha256 : Str → Str
  pub to_upper : Str → Str
  pub decimal : ℤ → Str
  -- `aes.NewCipher` and `cipher.NewGCM`
  pub aes_gcm : (key : Str) → Option Aead
  pub chacha20_poly1305 : (key : Str) → Option Aead
  pub hkdf : (secret salt info : Str) → ℕ → Option Str
  -- The public key that belongs to a private one, for X25519 and for Ed25519 in PKIX form.
  pub x25519_public : Str → Str
  pub new_public_key : Str → Option Str
  pub ecdh : (priv pub_key : Str) → Option Str
  pub pkix_public : Str → Str
  pub ed25519_sign : (priv message : Str) → Str
  pub marshal : Map Str Str → Option Str
  -- `json.Unmarshal` into a map; `null` leaves it nil.
  pub unmarshal : Str → Option (Option Fields)

abbrev pub mrs1_prefix : Str
mrs1_prefix = str "mrs1:"

-- None is a panic, on a key that is no AES key.
unfoldable pub encrypt_mrs1 : Primitives → (iv plaintext key : Str) → Option Str
encrypt_mrs1 lib iv plaintext key = elim (lib.aes_gcm key) [
  | none ↦ none
  | some gcm ↦
      let sealed = gcm.seal iv plaintext [] in
      let ct = take (length sealed - gcm.overhead) sealed in
      let tag = drop (length sealed - gcm.overhead) sealed in
      some (mrs1_prefix ++ lib.std_encode (iv ++ tag ++ ct))
]

pub data Decrypted : Type 0 where
  bad_base64 bad_key too_short not_authentic : Decrypted
  plain : Str → Decrypted

-- `raw` split into iv, tag and the rest.
unfoldable pub open_mrs1 : Aead → Str → Decrypted
open_mrs1 gcm raw =
    let iv = take gcm.nonce_size raw in
    let tag = take gcm.overhead (drop gcm.nonce_size raw) in
    let ct = drop gcm.overhead (drop gcm.nonce_size raw) in
    if ltb (length raw) (gcm.nonce_size + gcm.overhead)
    then too_short
    else elim (gcm.unseal iv (ct ++ tag) []) [ none ↦ not_authentic | some pt ↦ plain pt ]

unfoldable pub decrypt_mrs1 : Primitives → (blob key : Str) → Decrypted
decrypt_mrs1 lib blob key = elim (cut_prefix mrs1_prefix blob) [
  | none ↦ plain blob
  | some coded ↦ elim (lib.std_decode coded) [
    | none ↦ bad_base64
    | some raw ↦ elim (lib.aes_gcm key) [ none ↦ bad_key | some gcm ↦ open_mrs1 gcm raw ]
  ]
]

-- The device's ID and the base64 text of its public key.
unfoldable pub device_identity : Primitives → (priv : Str) → Str × Str
device_identity lib priv =
    let public_key_b64 = lib.std_encode (lib.pkix_public priv) in
    (take 22 (lib.raw_url_encode (lib.sha256 public_key_b64)), public_key_b64)

unfoldable pub sha256hex : Primitives → Str → Str
sha256hex lib b = lib.hex (lib.sha256 b)

-- Go's order on strings, byte by byte.
unfoldable pub str_leb : Str → Str → Bool
str_leb [] t = true
str_leb (a ∷ s) [] = false
str_leb (a ∷ s) (b ∷ t) = ltb a b || (a == b && str_leb s t)

unfoldable pub insert_string : Str → List Str → List Str
insert_string k [] = k ∷ []
insert_string k (j ∷ ks) = if str_leb k j then k ∷ j ∷ ks else j ∷ insert_string k ks

-- `sort.Strings`
unfoldable pub sort_strings : List Str → List Str
sort_strings [] = []
sort_strings (k ∷ ks) = insert_string k (sort_strings ks)

abbrev pub keys_of : Map Str Str → List Str
keys_of [] = []
keys_of ((k, v) ∷ m) = k ∷ keys_of m

-- `meta[k]`
abbrev pub value_at : Str → Map Str Str → Str
value_at k m = elim (lookup k m) [ none ↦ [] | some v ↦ v ]

-- What the loop over the sorted keys writes.
unfoldable pub write_meta : Map Str Str → List Str → Str
write_meta meta [] = []
write_meta meta (k ∷ ks) = k ++ 0 ∷ value_at k meta ++ 0 ∷ write_meta meta ks

unfoldable pub meta_line : Primitives → Map Str Str → Str
meta_line lib [] = []
meta_line lib (p ∷ m) = sha256hex lib (write_meta (p ∷ m) (sort_strings (keys_of (p ∷ m))))

abbrev pub newline : ℕ
newline = 10

-- `strings.Join(lines, "\n")`
unfoldable pub join_lines : List Str → Str
join_lines [] = []
join_lines (l ∷ []) = l
join_lines (l ∷ k ∷ ls) = l ++ newline ∷ join_lines (k ∷ ls)

pub record SignParams : Type 0 where
  pub method : Str
  pub path : Str
  pub credential : Str
  pub client_version : Str
  pub meta : Map Str Str
  pub body : Str

unfoldable pub canonical_lines :
    Primitives → SignParams → (ts : ℤ) (nonce device_id : Str) → List Str
canonical_lines lib p ts nonce device_id =
    str "mrs-sig-v2"
    ∷ lib.to_upper p.method
    ∷ p.path
    ∷ lib.decimal ts
    ∷ nonce
    ∷ device_id
    ∷ p.client_version
    ∷ sha256hex lib p.credential
    ∷ meta_line lib p.meta
    ∷ sha256hex lib p.body
    ∷ []

unfoldable pub canonical_string : Primitives → SignParams → (ts : ℤ) (nonce device_id : Str) → Str
canonical_string lib p ts nonce device_id = join_lines (canonical_lines lib p ts nonce device_id)

-- `ts` is what the clock answers, and `nonce_raw` what `rand` does.
unfoldable pub sign_headers :
    Primitives → (ts : ℤ) (nonce_raw priv device_id : Str) → SignParams → Map Str Str
sign_headers lib ts nonce_raw priv device_id p =
    let nonce = lib.raw_url_encode nonce_raw in
    let sig = lib.ed25519_sign priv (canonical_string lib p ts nonce device_id) in
    (str "x-mirasim-device", device_id)
    ∷ (str "x-mirasim-ts", lib.decimal ts)
    ∷ (str "x-mirasim-nonce", nonce)
    ∷ (str "x-mirasim-sig", lib.raw_url_encode sig)
    ∷ (str "x-mirasim-client", p.client_version)
    ∷ []

-- `sealPlaintext`: the four headers in their order.
unfoldable pub seal_plaintext : Map Str Str → Map Str Str
seal_plaintext headers =
    (str "x-mirasim-device", value_at (str "x-mirasim-device") headers)
    ∷ (str "x-mirasim-ts", value_at (str "x-mirasim-ts") headers)
    ∷ (str "x-mirasim-nonce", value_at (str "x-mirasim-nonce") headers)
    ∷ (str "x-mirasim-sig", value_at (str "x-mirasim-sig") headers)
    ∷ []

abbrev pub seal_info : Str
seal_info = str "mrs-seal-v1"

unfoldable pub seal_additional : Primitives → (method path : Str) → Str
seal_additional lib method path =
    str "mrs-seal-v1" ++ newline ∷ lib.to_upper method ++ newline ∷ path

-- `eph` is the private key that is drawn, and `nonce` the nonce. None is an error.
unfoldable pub seal_headers :
    Primitives → (eph nonce relay_pubkey_b64 method path : Str) → Map Str Str → Option Str
seal_headers lib eph nonce relay_pubkey_b64 method path headers = do
  relay_pub_raw ← lib.std_decode relay_pubkey_b64
  relay_pub ← lib.new_public_key relay_pub_raw
  shared ← lib.ecdh eph relay_pub
  let eph_pub = lib.x25519_public eph
  key ← lib.hkdf shared eph_pub seal_info 32
  aead ← lib.chacha20_poly1305 key
  pt ← lib.marshal (seal_plaintext headers)
  let sealed = aead.seal nonce pt (seal_additional lib method path)
  some (lib.raw_url_encode (eph_pub ++ nonce ++ sealed))

-- None is a nil map.
unfoldable pub jwt_claims : Primitives → Str → Option Fields
jwt_claims lib token = elim (split_on 46 [] token) [
  | header ∷ body ∷ signature ∷ [] ↦ elim (lib.raw_url_decode body) [
    | none ↦ none
    | some payload ↦ elim (lib.unmarshal payload) [ none ↦ none | some claims ↦ claims ]
  ]
  | _ ↦ none
]
