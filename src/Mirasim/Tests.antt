-- ===== src/Mirasim/Tests.antt =====
-- The theorems on the client and its requests at concrete inputs.
use mirasim2api.Base.{
  ◌≡◌, ◌⊎◌, refl, some, none, [], ◌∷◌, ◌++◌, Str, str, length, replicate, Map, str_beq,
}
use mirasim2api.Base.Int.{pos}
use mirasim2api.Base.Text.{cut_prefix}
use mirasim2api.Mirasim.Client.{Client, SessionResponse}
use mirasim2api.Mirasim.Crypto.{
  Aead, SignParams, plain, too_short, mrs1_prefix, encrypt_mrs1, decrypt_mrs1, open_mrs1,
  canonical_string, meta_line, sort_strings, insert_string, str_leb, write_meta, sha256hex,
}
use mirasim2api.Mirasim.Crypto.Blob.{decrypt-encrypt_mrs1, decrypt_mrs1_authentic}
use mirasim2api.Mirasim.Crypto.Canonical.{exchange, canonical_string-Reordered}
use mirasim2api.Mirasim.Request.{Endpoint}
use mirasim2api.Mirasim.Toy.{toy, toy_aead, toy_aead-IsSound}

abbrev client : Client
client = record {
  refresh_token = str "r";
  access_token = [];
  access_exp = 0;
  ticket = [];
  ticket_exp = 0;
}

abbrev session : SessionResponse
session = record { ticket = str "t"; expires_in = pos 0 }

abbrev iv : Str
iv = replicate 12 1

decrypt-encrypt_mrs1_example :
    (blob : Str) × (encrypt_mrs1 toy iv (str "secret") [] ≡ some blob)
    × (decrypt_mrs1 toy blob [] ≡ plain (str "secret"))
decrypt-encrypt_mrs1_example =
    decrypt-encrypt_mrs1 toy iv (str "secret") [] toy_aead (λ s. refl) refl toy_aead-IsSound refl

-- A blob of two bytes is no iv and tag.
short_blob : decrypt_mrs1 toy (str "mrs1:ab") [] ≡ too_short
unfolding decrypt_mrs1 open_mrs1 cut_prefix
short_blob = refl

abbrev blob : Str
blob = mrs1_prefix ++ (iv ++ replicate 16 9 ++ str "hi")

opened : decrypt_mrs1 toy blob [] ≡ plain (str "hi")
unfolding decrypt_mrs1 open_mrs1 cut_prefix
opened = refl

decrypt_mrs1_authentic_example :
    ((cut_prefix mrs1_prefix blob ≡ none) × (str "hi" ≡ blob))
    ⊎ ((coded : Str) × (gcm : Aead) × (iv' : Str) × (tag : Str) × (ct : Str) × (blob
          ≡ mrs1_prefix ++ coded)
        × (toy.std_decode coded ≡ some (iv' ++ tag ++ ct))
        × (toy.aes_gcm [] ≡ some gcm)
        × (length iv' ≡ gcm.nonce_size)
        × (length tag ≡ gcm.overhead)
        × (gcm.unseal iv' (ct ++ tag) [] ≡ some (str "hi")))
decrypt_mrs1_authentic_example = decrypt_mrs1_authentic toy blob [] (str "hi") opened

abbrev params : SignParams
params = record {
  method = str "POST";
  path = str "/v1/messages";
  credential = str "t";
  client_version = str "0.0.322";
  meta = (str "b", str "1") ∷ (str "a", str "2") ∷ [];
  body = str "{}";
}

abbrev other_order : Map Str Str
other_order = (str "a", str "2") ∷ (str "b", str "1") ∷ []

-- Each pair ends in a zero byte, the last one too.
meta_bytes :
    meta_line toy params.meta ≡ str "a" ++ 0 ∷ str "2" ++ 0 ∷ str "b" ++ 0 ∷ str "1" ++ 0 ∷ []
unfolding meta_line sort_strings insert_string str_leb write_meta sha256hex str_beq
meta_bytes = refl

canonical_string-Reordered_example :
    canonical_string toy params (pos 5) (str "n") (str "d")
    ≡ canonical_string toy (record params { meta = other_order }) (pos 5) (str "n") (str "d")
unfolding str_beq
canonical_string-Reordered_example =
    canonical_string-Reordered toy params other_order (pos 5) (str "n") (str "d") (refl, (refl, tt))
      (exchange (str "b", str "1") (str "a", str "2") [])

abbrev endpoint : Endpoint
endpoint = record {
  relay_url = str "https://relay";
  auth_url = str "https://auth";
  client_version = str "0.0.322";
  seal_pubkey = replicate 32 5;
  device_id = str "d";
  device_pub_b64 = str "p";
  device_priv = str "p";
}
