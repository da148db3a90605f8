-- ===== src/Admin/Keys.antt =====
-- internal/admin/keys.go: the views and handlers of the API keys. A body is none where it is no JSON.
pub mod Limits
pub mod Patch
mod Tests
use mirasim2api.Base.{
  ℕ, Bool, true, false, not, Option, none, some, List, [], ◌∷◌, Str, if◌then◌else◌, map,
}
use mirasim2api.Base.Float.{Float}
use mirasim2api.Base.Int.{ℤ, pos, pos_part, ltb_ℤ}
use mirasim2api.Base.Text.{trim_space}
use mirasim2api.Pool.Pick.{is_empty}
use mirasim2api.Store.Rows.{ApiKey}
use mirasim2api.Store.Database.{Database}
use mirasim2api.Store.Keys.{
  KeyOpts, KeyUpdate, create_api_key, update_api_key, delete_api_key, get_api_key, list_api_keys,
}
use mirasim2api.Admin.Access.{KeyEdit, Invalid, validate}

-- A time of 0 is left out of the JSON.
pub record KeyView (R : Type 0) : Type 0 where
  pub id : Str
  pub name : Str
  pub key_display : Str
  pub enabled : Bool
  pub concurrency : ℤ
  pub rate_limit_rpm : ℕ
  pub model_allowlist : List Str
  pub total_input_tokens : ℕ
  pub total_output_tokens : ℕ
  pub total_cost : R
  pub expires_at : ℤ
  pub created_at : ℕ
  pub last_used_at : ℕ

-- `*p`, or `def` for a nil pointer.
abbrev pub given {ℓ} : {A : Type ℓ} → Option A → A → A
given none def = def
given (some a) def = a

unfoldable pub key_to_view : {R : Type 0} → ApiKey R → KeyView R
key_to_view k = record {
  id = k.id;
  name = k.name;
  key_display = k.key_display;
  enabled = k.enabled;
  concurrency = k.concurrency;
  rate_limit_rpm = k.rate_limit_rpm;
  model_allowlist = k.model_allowlist;
  total_input_tokens = k.total_input_tokens;
  total_output_tokens = k.total_output_tokens;
  total_cost = k.total_cost;
  expires_at = given k.expires_at (pos 0);
  created_at = k.created_at;
  last_used_at = given k.last_used_at 0;
}

-- None is an error.
unfoldable pub handle_keys_list :
    {R : Type 0} → (up : Bool) → Database R → Option (List (KeyView R))
handle_keys_list up db = if up then some (map key_to_view (list_api_keys db)) else none

-- A time that is not positive is no time.
unfoldable pub expiry_of : Option ℤ → Option ℤ
expiry_of none = none
expiry_of (some t) = if ltb_ℤ (pos 0) t then some t else none

-- A limit that passed the check is not negative.
unfoldable pub opts_of : KeyEdit → KeyOpts
opts_of body = record {
  concurrency = given body.concurrency (pos 0);
  rate_limit_rpm = pos_part (given body.rate_limit_rpm (pos 0));
  model_allowlist = given body.model_allowlist [];
  expires_at = expiry_of body.expires_at;
}

-- The name of a key that is given none, "unnamed".
abbrev pub unnamed : Str
unnamed = 230 ∷ 156 ∷ 170 ∷ 229 ∷ 145 ∷ 189 ∷ 229 ∷ 144 ∷ 141 ∷ []

unfoldable pub name_of : Str → Str
name_of given_name = let name = trim_space given_name in if is_empty name then unnamed else name

pub data CreateAnswer (R : Type 0) : Type 0 where
  create_not_json create_failed : CreateAnswer R
  create_invalid : Invalid → CreateAnswer R
  created : (key : Str) → KeyView R → CreateAnswer R

-- What the randomness and the two statements of `CreateAPIKey` answer.
pub record Create : Type 0 where
  pub hash : Str → Str
  pub plain : Option Str
  pub id : Str
  pub inserts : Bool
  pub reads : Bool

unfoldable pub handle_key_create :
    {R : Type 0}
    → ⦃f : Float R⦄ → Create
    → (now : ℕ) → Option KeyEdit
    → Database R
    → Database R × CreateAnswer R
handle_key_create c now none db = (db, create_not_json)
handle_key_create c now (some body) db = elim (validate body) [
  | some why ↦ (db, create_invalid why)
  | none ↦ elim c.plain [
    | none ↦ (db, create_failed)
    | some plain ↦
        let (db', key) =
          create_api_key c.hash plain c.id now (name_of body.name) (opts_of body) db in
        if not c.inserts then (db, create_failed) else elim (get_api_key c.reads c.id db') [
          | none ↦ (db', create_failed)
          | some k ↦ (db', created key (key_to_view k))
        ]
  ]
]

pub data EditAnswer : Type 0 where
  not_json failed done : EditAnswer
  invalid : Invalid → EditAnswer

abbrev pub limit_of : Option ℤ → Option ℕ
limit_of none = none
limit_of (some n) = some (pos_part n)

unfoldable pub update_of : KeyEdit → KeyUpdate
update_of body = record {
  enabled = body.enabled;
  concurrency = body.concurrency;
  rate_limit_rpm = limit_of body.rate_limit_rpm;
  model_allowlist = body.model_allowlist;
  expires_at = body.expires_at;
}

-- The body's name is not read.
unfoldable pub handle_key_patch :
    {R : Type 0}
    → (up : ℕ → Bool) → (id : Str) → Option KeyEdit
    → Database R
    → Database R × EditAnswer
handle_key_patch up id none db = (db, not_json)
handle_key_patch up id (some body) db = elim (validate body) [
  | some why ↦ (db, invalid why)
  | none ↦
      let (db', went) = update_api_key up id (update_of body) db in
      (db', if went then done else failed)
]

unfoldable pub handle_key_delete :
    {R : Type 0} → (up : Bool) → (id : Str) → Database R → Database R × EditAnswer
handle_key_delete up id db = if up then (delete_api_key id db, done) else (db, failed)
