-- ===== src/Mirasim/Toy.antt =====
-- Small primitives that meet the laws, for tests: the codings change nothing, every key is the same
-- 32 bytes, a seal is the text before 16 bytes, and each byte of a coded map is one more than it was.
use mirasim2api.Base.{
  zero, suc, ◌-◌, ◌≡◌, refl, ap, ◌∙◌, Option, none, some, [], ◌∷◌, ◌++◌, Str, str, arith, length,
  take, replicate, Map, length-append, take-append, append_assoc, append-nil, ==_iff, ◌==◌,
  text_key,
}
use mirasim2api.Base.Int.{ℤ, pos, negsuc}
use mirasim2api.Mirasim.Crypto.{Aead, Primitives}
use mirasim2api.Mirasim.Crypto.Blob.{IsSound}
use mirasim2api.Mirasim.Crypto.Seal.{IsSealing}
use mirasim2api.Mirasim.Request.Accepted.{Relay, IsFaithful}

abbrev tag_bytes : Str
tag_bytes = replicate 16 9

abbrev pub toy_aead : Aead
toy_aead = record {
  nonce_size = 12;
  overhead = 16;
  seal = λ nonce p additional. p ++ tag_bytes;
  unseal = λ nonce sealed additional. some (take (length sealed - 16) sealed);
}

pub toy_aead-IsSound : IsSound toy_aead
toy_aead-IsSound = record {
  unseal_seal = λ nonce p additional h.
      let size : length (p ++ tag_bytes) - 16 ≡ length p =
        omega (arith, length-append p tag_bytes) in
      ap some (ap (λ n. take n (p ++ tag_bytes)) size ∙ take-append p tag_bytes);
  length_seal = λ nonce p additional. length-append p tag_bytes;
}

unfoldable pub code_text : Str → Str
code_text [] = []
code_text (c ∷ s) = suc c ∷ code_text s

unfoldable pub code_map : Map Str Str → Str
unfolding code_text
code_map [] = []
code_map ((k, v) ∷ m) = code_text k ++ 0 ∷ (code_text v ++ 0 ∷ code_map m)

-- The name, if it was read, and the bytes since.
unfoldable pub read_map : Option Str → Str → Str → Map Str Str
read_map name acc [] = []
read_map none acc (zero ∷ s) = read_map (some acc) [] s
read_map (some k) acc (zero ∷ s) = (k, acc) ∷ read_map none [] s
read_map name acc (suc c ∷ s) = read_map name (acc ++ c ∷ []) s

read_map-code_text :
    (name : Option Str) (acc s t : Str)
    → read_map name acc (code_text s ++ t) ≡ read_map name (acc ++ s) t
unfolding read_map code_text
read_map-code_text name acc [] t = rw (append-nil acc) refl
read_map-code_text none acc (c ∷ s) t =
    read_map-code_text none (acc ++ c ∷ []) s t
    ∙ ap (λ l. read_map none l t) (append_assoc acc (c ∷ []) s)
read_map-code_text (some k) acc (c ∷ s) t =
    read_map-code_text (some k) (acc ++ c ∷ []) s t
    ∙ ap (λ l. read_map (some k) l t) (append_assoc acc (c ∷ []) s)

read_map-code_map : (m : Map Str Str) → read_map none [] (code_map m) ≡ m
unfolding read_map code_map
read_map-code_map [] = refl
read_map-code_map ((k, v) ∷ m) =
    read_map-code_text none [] k (0 ∷ (code_text v ++ 0 ∷ code_map m))
    ∙ read_map-code_text (some k) [] v (0 ∷ code_map m)
    ∙ ap (λ r. (k, v) ∷ r) (read_map-code_map m)

abbrev code_number : ℤ → Str
code_number (pos n) = 0 ∷ n ∷ []
code_number (negsuc n) = 1 ∷ n ∷ []

abbrev pub toy : Primitives
toy = record {
  std_encode = λ s. s;
  std_decode = λ s. some s;
  raw_url_encode = λ s. s;
  raw_url_decode = λ s. some s;
  hex = λ s. s;
  sha256 = λ s. s;
  to_upper = λ s. s;
  decimal = code_number;
  aes_gcm = λ key. some toy_aead;
  chacha20_poly1305 = λ key. some toy_aead;
  hkdf = λ secret salt info n. some (replicate n 0);
  x25519_public = λ priv. replicate 32 5;
  new_public_key = λ raw. some raw;
  ecdh = λ priv pub_key. some pub_key;
  pkix_public = λ priv. priv;
  ed25519_sign = λ priv message. priv ++ message;
  marshal = λ m. some (code_map m);
  unmarshal = λ s. none;
}

pub toy-IsSealing : IsSealing toy
toy-IsSealing = record {
  std_decode_encode = λ s. refl;
  url_decode_encode = λ s. refl;
  length_public = λ priv. refl;
  new_public = λ priv. refl;
  exchanged = λ a b. (replicate 32 5, refl, refl);
  derived = λ secret salt info. (replicate 32 0, refl, refl);
  cipher_of = λ key h. (toy_aead, refl, toy_aead-IsSound, refl);
  marshalled = λ m. (code_map m, refl);
}

abbrev pub toy_relay : Relay
toy_relay = record {
  base_url = str "https://relay";
  relay_priv = [];
  verify = λ device_pub message sig. sig == device_pub ++ message;
  read_headers = λ text. some (read_map none [] text);
}

pub toy_relay-IsFaithful : IsFaithful toy toy_relay
toy_relay-IsFaithful = record {
  read_marshal =
      λ m text h. let e : code_map m ≡ text = cc in rw (← e) (ap some (read_map-code_map m));
  verify_sign = λ priv message. (==_iff (priv ++ message) (priv ++ message)).1 refl;
}
