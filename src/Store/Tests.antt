-- ===== src/Store/Tests.antt =====
-- The theorems on the store at concrete inputs.
use mirasim2api.Base.{
  ℕ, true, ap, arith, ◌≡◌, refl, none, some, [], ◌∷◌, Str, str, text_key, str_beq,
}
use mirasim2api.Base.Float.{micro}
use mirasim2api.Base.Int.{pos}
use mirasim2api.Mirasim.Toy.{toy}
use mirasim2api.Mirasim.Device.{KeyCodec, IsCodec, ed25519, marshal_private_key_pem}
use mirasim2api.Store.Accounts.{Cipher}
use mirasim2api.Store.Device.{
  device_key, load_or_create_device_key, create_device_key, device_key_again,
}
use mirasim2api.Store.Rows.{UsageLog}
use mirasim2api.Store.Database.{Database}
use mirasim2api.Store.Keys.{KeyOpts, create_api_key, get_api_key_by_plaintext}
use mirasim2api.Store.Keys.Lookup.{new_key, create_api_key-found}
use mirasim2api.Store.Logs.{usage_summary}
use mirasim2api.Store.Logs.Totals.{sum_rows-usage_summary}
use mirasim2api.Admin.Summary.{sum_rows}

abbrev log : Str → ℕ → UsageLog ℕ
log model at = record {
  id = 1;
  api_key_id = str "k";
  account_id = str "a";
  model = model;
  endpoint = str "/v1/messages";
  input_tokens = 10;
  output_tokens = 20;
  cached_tokens = 0;
  cost = 3;
  status = 200;
  err = [];
  duration_ms = 5;
  created_at = at;
}

abbrev database : Database ℕ
database = record {
  accounts = [];
  api_keys = [];
  usage_logs = log (str "m") 1 ∷ log (str "m") 5 ∷ log (str "n") 6 ∷ [];
  settings = [];
  device = none;
  last_log_id = 1;
}

sum_rows-usage_summary_example :
    ((sum_rows (usage_summary (some 5) database)).0.requests ≡ 2)
    × ((sum_rows (usage_summary (some 5) database)).0.input_tokens ≡ 20)
    × ((sum_rows (usage_summary (some 5) database)).0.output_tokens ≡ 40)
    × ((sum_rows (usage_summary (some 5) database)).0.cached_tokens ≡ 0)
sum_rows-usage_summary_example = sum_rows-usage_summary (some 5) database

abbrev opts : KeyOpts
opts = record { concurrency = pos 2; rate_limit_rpm = 60; model_allowlist = []; expires_at = none }

create_api_key-found_example :
    (get_api_key_by_plaintext
        (λ s. s)
        (create_api_key (λ s. s) (str "1") (str "id") 9 (str "n") opts database).0
        (str "sk-1")
      ≡ some (new_key (str "id") 9 (str "n") (str "sk-1") opts))
    × (get_api_key_by_plaintext
          (λ s. s)
          (create_api_key (λ s. s) (str "1") (str "id") 9 (str "n") opts database).0
          (str "other")
        ≡ get_api_key_by_plaintext (λ s. s) database (str "other"))
create_api_key-found_example =
    unfold create_api_key in
    create_api_key-found (λ s. s) (str "1") (str "id") 9 (str "n") opts database (str "other")
      (unfold get_api_key_by_plaintext in refl) (unfold str_beq in refl)

abbrev codec : KeyCodec
codec = record {
  marshal_pkcs8 = λ priv. some priv;
  parse_pkcs8 = λ der. some (ed25519 der);
  pem_encode = λ der. der;
  pem_decode = λ text. some text;
}

codec-IsCodec : IsCodec codec
codec-IsCodec = record {
  pem_back = λ der. refl;
  pkcs8_back =
      λ priv der h. let same : der ≡ priv = ground arith in ap (λ x. some (ed25519 x)) same;
}

abbrev clear : Cipher
clear = record { encrypt = λ s. s; decrypt = λ s. some s }

created :
    (load_or_create_device_key toy clear codec true true (some (str "p")) database).1
    ≡ some (device_key toy (str "p"))
unfolding load_or_create_device_key create_device_key marshal_private_key_pem
created = refl

device_key_again_example :
    load_or_create_device_key toy clear codec true true none
      (load_or_create_device_key toy clear codec true true (some (str "p")) database).0
    ≡ (
      (load_or_create_device_key toy clear codec true true (some (str "p")) database).0,
      some (device_key toy (str "p")),
    )
device_key_again_example =
    device_key_again toy clear codec true true (some (str "p")) none database
      (device_key toy (str "p")) codec-IsCodec (λ s. refl) created
