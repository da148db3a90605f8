-- ===== src/Store/Database.antt =====
-- internal/store/store.go: the tables, with the meaning of the SQL statements that the store runs
-- on them. A statement that the driver refuses changes nothing: `up` says whether one runs. Times
-- in the tables are Unix seconds. A table lists its rows in the order of their insertion.
use mirasim2api.Base.{
  ℕ, Bool, Option, none, some, List, [], ◌∷◌, Str, if◌then◌else◌, Map, text_key, leb,
}
use mirasim2api.Store.Rows.{ApiKey, UsageLog}

-- A row of `accounts`, with the token as it is encrypted.
pub record AccountRow : Type 0 where
  pub id : Str
  pub email : Str
  pub name : Str
  pub provider : Str
  pub refresh_token_enc : Str
  pub enabled : Bool
  pub created_at : ℕ
  pub updated_at : ℕ

-- A row of `api_keys`: what the program reads of it, and the hash it is found by.
pub record KeyRow (R : Type 0) : Type 0 where
  pub key_hash : Str
  pub key : ApiKey R

pub record Database (R : Type 0) : Type 0 where
  pub accounts : List AccountRow
  pub api_keys : List (KeyRow R)
  pub usage_logs : List (UsageLog R)
  pub settings : Map Str Str
  pub device : Option Str
  pub last_log_id : ℕ

-- `UPDATE ... SET ... WHERE`: the rows that pass the test are changed.
abbrev pub update_where {ℓ} : {A : Type ℓ} → (A → Bool) → (A → A) → List A → List A
update_where p change [] = []
update_where p change (x ∷ xs) =
    if p x then change x ∷ update_where p change xs else x ∷ update_where p change xs

-- `SELECT ... WHERE`, of which one row is read.
abbrev pub select_one {ℓ} : {A : Type ℓ} → (A → Bool) → List A → Option A
select_one p [] = none
select_one p (x ∷ xs) = if p x then some x else select_one p xs

-- `ORDER BY`, ascending in the key that `at` reads; equal keys stay in the order of insertion.
unfoldable pub place {ℓ} : {A : Type ℓ} → (A → ℕ) → A → List A → List A
place at x [] = x ∷ []
place at x (y ∷ ys) = if leb (at x) (at y) then x ∷ y ∷ ys else y ∷ place at x ys

unfoldable pub order_by {ℓ} : {A : Type ℓ} → (A → ℕ) → List A → List A
order_by at [] = []
order_by at (x ∷ xs) = place at x (order_by at xs)
