-- ===== src/Admin/Accounts/Tests.antt =====
-- The theorems on the handlers of accounts at concrete inputs.
use mirasim2api.Base.{ℕ, ◌≡◌, Bool, true, false, none, some, [], ◌∷◌, str, text_key}
use mirasim2api.Base.Float.{micro, micro_no_nan}
use mirasim2api.Base.Int.{pos}
use mirasim2api.Base.Json.{field, no_fields, string}
use mirasim2api.Mirasim.Crypto.{Primitives}
use mirasim2api.Mirasim.Toy.{toy}
use mirasim2api.Pool.Entry.{Account, usable, fresh}
use mirasim2api.Pool.Sticky.{Pool}
use mirasim2api.Pool.Stats.{stat_of}
use mirasim2api.Store.Accounts.{Cipher}
use mirasim2api.Store.Database.{AccountRow, Database}
use mirasim2api.Admin.Accounts.{
  Numbers, PatchAnswer, handle_account_patch, stat_to_view, Added, TokenInfo, add_token,
}
use mirasim2api.Admin.Accounts.View.{stat_to_view_usable}

abbrev pub clear : Cipher
clear = record { encrypt = λ s. s; decrypt = λ s. some s }

abbrev row : AccountRow
row = record {
  id = str "a";
  email = str "a@b";
  name = str "n";
  provider = str "github";
  refresh_token_enc = str "t";
  enabled = true;
  created_at = 0;
  updated_at = 0;
}

abbrev pub store : Database ℕ
store = record {
  accounts = row ∷ [];
  api_keys = [];
  usage_logs = [];
  settings = [];
  device = none;
  last_log_id = 0;
}

abbrev pub no_pool : Pool ℕ
no_pool = record { entries = []; sticky = []; lru = []; next_elem = 0 }

abbrev any_client : Account → Bool
any_client a = true

abbrev account : Account
account = record {
  id = str "a";
  email = str "a@b";
  name = str "n";
  provider = str "github";
  refresh_token = str "t";
  enabled = true;
  created_at = 0;
  updated_at = 0;
}

stat_to_view_usable_example :
    (stat_to_view 3 3 (stat_of toy (λ s. pos 0) (λ a. []) (fresh {R = ℕ} account))).usable
    ≡ usable 3 (fresh {R = ℕ} account)
stat_to_view_usable_example =
    stat_to_view_usable micro_no_nan toy (λ s. pos 0) (λ a. []) 3 3 (fresh account)

abbrev patch : Database ℕ × Pool ℕ × PatchAnswer
patch = handle_account_patch clear any_client true 9 (str "a") (some (some false)) store no_pool

-- A payload with an address, whatever the token is.
abbrev pub lib : Primitives
lib = record toy {
  unmarshal = λ s. some (some (field (str "email") (string (str "c@d")) no_fields));
}

abbrev pub numbers : Numbers
numbers = record { to_int64 = λ s. pos 0; parse_int = λ s. none }

abbrev info : TokenInfo
info = record { email = str "c@d"; name = []; plan = []; plan_exp = pos 0 }

abbrev joined : Account
joined = record {
  id = str "b";
  email = str "c@d";
  name = str "c@d";
  provider = str "manual";
  refresh_token = str "x.y.z";
  enabled = true;
  created_at = 9;
  updated_at = 9;
}

abbrev joining : Database ℕ × Pool ℕ × Added
joining = add_token clear any_client lib numbers true (str "b") 9 (str "x.y.z") [] [] store no_pool
