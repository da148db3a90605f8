-- ===== src/Admin/Keys/Tests.antt =====
-- The handlers of the keys at concrete inputs.
use mirasim2api.Base.{ℕ, ◌≡◌, refl, true, none, some, [], ◌∷◌, str}
use mirasim2api.Base.Int.{pos}
use mirasim2api.Base.Text.{trim_space}
use mirasim2api.Base.Float.{micro}
use mirasim2api.Store.Database.{Database, update_where}
use mirasim2api.Store.Keys.{is_key, on_key, set_given, update_rows, update_api_key, create_api_key}
use mirasim2api.Admin.Access.{KeyEdit, validate, outside, names_blank}
use mirasim2api.Admin.Keys.{Create, done, update_of, opts_of, handle_key_patch}
use mirasim2api.Admin.Keys.Patch.{patched, handle_key_patch_lem}

abbrev no_keys : Database ℕ
no_keys = record {
  accounts = [];
  api_keys = [];
  usage_logs = [];
  settings = [];
  device = none;
  last_log_id = 0;
}

abbrev edit : KeyEdit
edit = record {
  name = str "other";
  enabled = none;
  concurrency = some (pos 7);
  rate_limit_rpm = none;
  model_allowlist = some (str "m" ∷ []);
  expires_at = some (pos 0);
}

abbrev draw : Create
draw = record { hash = λ s. s; plain = some (str "1"); id = str "k"; inserts = true; reads = true }

-- A table with one key.
abbrev one_key : Database ℕ
one_key = (create_api_key (λ s. s) (str "1") (str "k") 9 (str "n") (opts_of edit) no_keys).0

patch_done : (handle_key_patch (λ i. true) (str "k") (some edit) one_key).1 ≡ done
unfolding handle_key_patch update_api_key update_rows set_given update_of validate outside
    names_blank trim_space
patch_done = refl

handle_key_patch_lem_example :
    (handle_key_patch (λ i. true) (str "k") (some edit) one_key).0 ≡ record one_key {
      api_keys = update_where (is_key (str "k")) (on_key (patched edit)) one_key.api_keys;
    }
handle_key_patch_lem_example = handle_key_patch_lem (λ i. true) (str "k") edit one_key patch_done
