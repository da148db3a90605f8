-- ===== src/Store/Keys.antt =====
-- internal/store/store.go: the API keys. `hash` is the hex SHA-256; `plain` and `id` are what the
-- random source draws, in hex. The allow list is kept as a list, not as its JSON text.
pub mod Lookup
use mirasim2api.Base.{
  ℕ, ◌+◌, ◌-◌, Bool, true, false, not, Option, none, some, List, [], ◌∷◌, ◌++◌, Str, str, ltb, ◌==◌,
  if◌then◌else◌, filter, take, drop, length, map, text_key,
}
use mirasim2api.Base.Float.{Float}
use mirasim2api.Base.Int.{ℤ}
use mirasim2api.Store.Rows.{ApiKey}
use mirasim2api.Store.Database.{KeyRow, Database, update_where, select_one, order_by}

pub record KeyOpts : Type 0 where
  pub concurrency : ℤ
  pub rate_limit_rpm : ℕ
  pub model_allowlist : List Str
  pub expires_at : Option ℤ

-- None leaves a field as it is.
pub record KeyUpdate : Type 0 where
  pub enabled : Option Bool
  pub concurrency : Option ℤ
  pub rate_limit_rpm : Option ℕ
  pub model_allowlist : Option (List Str)
  pub expires_at : Option ℤ

unfoldable pub display_of : Str → Str
display_of plaintext =
    if ltb 7 (length plaintext)
    then take 7 plaintext ++ str "..." ++ drop (length plaintext - 4) plaintext
    else plaintext

module _ {R : Type 0} where
  abbrev pub is_key : Str → KeyRow R → Bool
  is_key id row = row.key.id == id

  -- A change of the key of a row.
  abbrev pub on_key : (ApiKey R → ApiKey R) → KeyRow R → KeyRow R
  on_key change row = record row { key = change row.key }

  -- One `UPDATE` of `UpdateAPIKey`, run where the field is given and those before it went through.
  unfoldable pub set_given :
      {A : Type 0}
      → (up : Bool) → Option A
      → (A → ApiKey R → ApiKey R)
      → Str
      → List (KeyRow R) × Bool
      → List (KeyRow R) × Bool
  set_given up none change id before = before
  set_given up (some a) change id (rows, false) = (rows, false)
  set_given false (some a) change id (rows, true) = (rows, false)
  set_given true (some a) change id (rows, true) =
      (update_where (is_key id) (on_key (change a)) rows, true)

  -- `up` answers the statements by their number.
  unfoldable pub update_rows :
      (up : ℕ → Bool) → Str → KeyUpdate → List (KeyRow R) → List (KeyRow R) × Bool
  update_rows up id u rows =
      let one = set_given (up 0) u.enabled (λ b k. record k { enabled = b }) id (rows, true) in
      let two = set_given (up 1) u.concurrency (λ n k. record k { concurrency = n }) id one in
      let three =
        set_given (up 2) u.rate_limit_rpm (λ n k. record k { rate_limit_rpm = n }) id two in
      let four =
        set_given (up 3) u.model_allowlist (λ l k. record k { model_allowlist = l }) id three in
      set_given (up 4) u.expires_at (λ t k. record k { expires_at = some t }) id four

  -- False is an error, of the first statement that fails.
  unfoldable pub update_api_key : (up : ℕ → Bool) → Str → KeyUpdate → Database R → Database R × Bool
  update_api_key up id u db =
      let (rows, done) = update_rows up id u db.api_keys in (record db { api_keys = rows }, done)

  unfoldable pub delete_api_key : Str → Database R → Database R
  delete_api_key id db = record db { api_keys = filter (λ row. not (is_key id row)) db.api_keys }

  unfoldable pub touch_api_key_used : Str → ℕ → Database R → Database R
  touch_api_key_used id now db = record db {
    api_keys =
        update_where (is_key id) (on_key (λ k. record k { last_used_at = some now })) db.api_keys;
  }

  unfoldable pub list_api_keys : Database R → List (ApiKey R)
  list_api_keys db = map (λ row. row.key) (order_by (λ row. row.key.created_at) db.api_keys)

  unfoldable pub get_api_key : (up : Bool) → Str → Database R → Option (ApiKey R)
  get_api_key up id db =
      if not up
      then none
      else elim (select_one (is_key id) db.api_keys) [ none ↦ none | some row ↦ some row.key ]

  unfoldable pub get_api_key_by_plaintext : (Str → Str) → Database R → Str → Option (ApiKey R)
  get_api_key_by_plaintext hash db plaintext =
      elim (select_one (λ row. row.key_hash == hash plaintext) db.api_keys) [
        | none ↦ none
        | some row ↦ some row.key
      ]

module _ {R : Type 0} ⦃f : Float R⦄ where
  -- The new row, and the plaintext that is returned this once. Where the ID or the hash stands already,
  -- the driver refuses the statement and nothing changes: the caller says so.
  unfoldable pub create_api_key :
      (Str → Str) → (plain id : Str) → ℕ → Str → KeyOpts → Database R → Database R × Str
  create_api_key hash plain id now name opts db =
      let plaintext = str "sk-" ++ plain in
      (
        record db {
          api_keys =
              db.api_keys
              ++ record {
                key_hash = hash plaintext;
                key = record {
                  id = id;
                  name = name;
                  key_display = display_of plaintext;
                  enabled = true;
                  concurrency = opts.concurrency;
                  rate_limit_rpm = opts.rate_limit_rpm;
                  model_allowlist = opts.model_allowlist;
                  total_input_tokens = 0;
                  total_output_tokens = 0;
                  total_cost = f.zero;
                  expires_at = opts.expires_at;
                  created_at = now;
                  last_used_at = none;
                };
              }
                ∷ [];
        },
        plaintext,
      )

  unfoldable pub add_usage : Str → ℕ → ℕ → R → Database R → Database R
  add_usage id input output cost db = record db {
    api_keys =
        update_where (is_key id)
          (on_key (λ k. record k {
            total_input_tokens = k.total_input_tokens + input;
            total_output_tokens = k.total_output_tokens + output;
            total_cost = f.add k.total_cost cost;
          }))
          db.api_keys;
  }
