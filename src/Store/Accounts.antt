-- ===== src/Store/Accounts.antt =====
-- internal/store/store.go: the accounts. The cipher of internal/mirasim/crypto.go under the
-- store's master key is a parameter.
pub mod Unique
pub mod Reading
use mirasim2api.Base.{
  ℕ, Bool, true, not, ◌&&◌, Option, none, some, List, [], ◌∷◌, ◌++◌, Str, ◌==◌, if◌then◌else◌,
  filter, text_key,
}
use mirasim2api.Pool.Entry.{Account}
use mirasim2api.Store.Database.{AccountRow, Database, update_where, select_one, order_by}

pub record Cipher : Type 0 where
  pub encrypt : Str → Str
  pub decrypt : Str → Option Str

-- An error, or the store after the change with what the call returns.
pub data Result (R A : Type 0) : Type 0 where
  failed : Database R → Result R A
  returned : Database R → A → Result R A

unfoldable pub scan_account : Cipher → AccountRow → Option Account
scan_account cipher row = elim (cipher.decrypt row.refresh_token_enc) [
  | none ↦ none
  | some token ↦ some (record {
    id = row.id;
    email = row.email;
    name = row.name;
    provider = row.provider;
    refresh_token = token;
    enabled = row.enabled;
    created_at = row.created_at;
    updated_at = row.updated_at;
  })
]

unfoldable pub scan_accounts : Cipher → List AccountRow → Option (List Account)
scan_accounts cipher [] = some []
scan_accounts cipher (row ∷ rows) = elim (scan_account cipher row) [
  | none ↦ none
  | some a ↦ elim (scan_accounts cipher rows) [ none ↦ none | some as_read ↦ some (a ∷ as_read) ]
]

abbrev pub has_id : Str → AccountRow → Bool
has_id id row = row.id == id

module _ {R : Type 0} (cipher : Cipher) where
  unfoldable pub get_account : Str → Database R → Option Account
  get_account id db = elim (select_one (has_id id) db.accounts) [
    | none ↦ none
    | some row ↦ scan_account cipher row
  ]

  unfoldable pub read_back : Str → Database R → Result R Account
  read_back id db = elim (get_account id db) [ none ↦ failed db | some a ↦ returned db a ]

  -- `id` is what `randomID` draws, and `up` what the write answers.
  unfoldable pub add_account :
      (up : Bool) (id : Str) (now : ℕ) (email name provider refresh_token : Str)
      → Database R
      → Result R Account
  add_account up id now email name provider refresh_token db =
      elim (select_one (λ row. row.email == email && row.provider == provider) db.accounts) [
        | some old ↦
            if up
            then read_back old.id (record db {
              accounts =
                  update_where (has_id old.id)
                    (λ row. record row {
                      refresh_token_enc = cipher.encrypt refresh_token;
                      name = name;
                      updated_at = now;
                    })
                    db.accounts;
            })
            else failed db
        | none ↦
            if up
            then read_back id (record db {
              accounts =
                  db.accounts
                  ++ record {
                    id = id;
                    email = email;
                    name = name;
                    provider = provider;
                    refresh_token_enc = cipher.encrypt refresh_token;
                    enabled = true;
                    created_at = now;
                    updated_at = now;
                  }
                    ∷ [];
            })
            else failed db
      ]

  unfoldable pub update_account_token : Str → Str → ℕ → Database R → Database R
  update_account_token id token now db = record db {
    accounts =
        update_where (has_id id)
          (λ row. record row { refresh_token_enc = cipher.encrypt token; updated_at = now })
          db.accounts;
  }

  unfoldable pub list_accounts : Database R → Option (List Account)
  list_accounts db = scan_accounts cipher (order_by (λ row. row.created_at) db.accounts)

module _ {R : Type 0} where
  unfoldable pub set_account_enabled : Str → Bool → ℕ → Database R → Database R
  set_account_enabled id enabled now db = record db {
    accounts =
        update_where (has_id id) (λ row. record row { enabled = enabled; updated_at = now })
          db.accounts;
  }

  unfoldable pub delete_account : Str → Database R → Database R
  delete_account id db = record db { accounts = filter (λ row. not (has_id id row)) db.accounts }
