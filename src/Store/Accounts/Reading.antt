-- ===== src/Store/Accounts/Reading.antt =====
-- The list of the accounts and the reading of one agree, and what the writes do to both.
use mirasim2api.Base.{
  ℕ, ◌≡◌, refl, sym, ap, subst, ◌∙◌, Bool, true, ◌&&◌, Option, none, some, List, [], ◌∷◌, ◌++◌, inl,
  inr, Str, arith, ◌==◌, ==_iff, if◌then◌else◌, Bool-cases, Option-cases, text_key,
}
use mirasim2api.Pool.Entry.{Account}
use mirasim2api.Pool.Reload.{find_account, DistinctIds}
use mirasim2api.Store.Database.{AccountRow, Database, update_where, select_one, order_by}
use mirasim2api.Store.Accounts.{
  Cipher, returned, has_id, read_back, add_account, scan_account, scan_accounts, get_account,
  list_accounts, set_account_enabled, delete_account,
}
use mirasim2api.Store.Accounts.Unique.{
  UniqueIds, UniqueIds-append, UniqueIds-filter, UniqueIds-order_by, UniqueIds-update_where,
  select_one-filter, select_one-id, select_one-order_by, select_one-update_where,
}

module _ (cipher : Cipher) where
  -- The account of a row that may be missing.
  abbrev pub scanned : Option AccountRow → Option Account
  scanned none = none
  scanned (some row) = scan_account cipher row

  scan_account-id :
      (row : AccountRow) (a : Account) → scan_account cipher row ≡ some a → a.id ≡ row.id
  unfolding scan_account
  scan_account-id row a h = ground arith

  find_account-scan_accounts :
      (id : Str) (rows : List AccountRow) (l : List Account)
      → scan_accounts cipher rows ≡ some l
      → find_account id l ≡ scanned (select_one (has_id id) rows)
  unfolding scan_accounts
  find_account-scan_accounts id [] l h = ground arith
  find_account-scan_accounts id (row ∷ rows) l h = elim (Option-cases (scan_account cipher row)) [
    | inl e ↦ absurd (ground arith)
    | inr (a, e) ↦ elim (Option-cases (scan_accounts cipher rows)) [
      | inl d ↦ absurd (ground arith)
      | inr (k, d) ↦
          let whole : l ≡ a ∷ k = ground arith in
          rw (whole) (ground (arith, find_account-scan_accounts id rows k, scan_account-id row a))
    ]
  ]

  DistinctIds-scan_accounts :
      (rows : List AccountRow) (l : List Account)
      → scan_accounts cipher rows ≡ some l
      → UniqueIds rows
      → DistinctIds l
  unfolding scan_accounts
  DistinctIds-scan_accounts [] l h u = let whole : l ≡ [] = ground arith in rw whole tt
  DistinctIds-scan_accounts (row ∷ rows) l h u = elim (Option-cases (scan_account cipher row)) [
    | inl e ↦ absurd (ground arith)
    | inr (a, e) ↦ elim (Option-cases (scan_accounts cipher rows)) [
      | inl d ↦ absurd (ground arith)
      | inr (k, d) ↦
          let whole : l ≡ a ∷ k = ground arith in
          let same = scan_account-id row a e in
          rw (whole) (
            rw (find_account-scan_accounts a.id rows k d, same, u.0) refl,
            DistinctIds-scan_accounts rows k d u.1,
          )
    ]
  ]

module _ {R : Type 0} (cipher : Cipher) where
  -- Where IDs are unique, the list holds under an ID what the reading of that ID yields.
  pub find-list_accounts :
      (id : Str) (db : Database R) (l : List Account)
      → UniqueIds db.accounts
      → list_accounts cipher db ≡ some l
      → find_account id l ≡ get_account cipher id db
  unfolding list_accounts get_account
  find-list_accounts id db l u h =
      find_account-scan_accounts cipher id (order_by (λ row. row.created_at) db.accounts) l h
      ∙ ap (scanned cipher) (select_one-order_by (λ row. row.created_at) id db.accounts u)
      ∙ (elim (Option-cases (select_one (has_id id) db.accounts)) [
        | inl e ↦ rw (get_account, e) refl
        | inr (row, e) ↦ rw (get_account, e) refl
      ])

  pub list_accounts-DistinctIds :
      (db : Database R) (l : List Account)
      → UniqueIds db.accounts
      → list_accounts cipher db ≡ some l
      → DistinctIds l
  unfolding list_accounts
  list_accounts-DistinctIds db l u h =
      DistinctIds-scan_accounts cipher (order_by (λ row. row.created_at) db.accounts) l h
        (UniqueIds-order_by (λ row. row.created_at) db.accounts u)

  -- An account read after it was enabled or disabled has the flag and the time of the write.
  pub get_account-set_account_enabled :
      (id : Str) (enabled : Bool) (now : ℕ) (db : Database R)
      → get_account cipher id (set_account_enabled id enabled now db)
        ≡ (elim (get_account cipher id db) [
          | none ↦ none
          | some a ↦ some (record a { enabled = enabled; updated_at = now })
        ])
  unfolding get_account set_account_enabled scan_account
  get_account-set_account_enabled id enabled now db =
      let found =
        select_one-update_where (λ row. record row { enabled = enabled; updated_at = now }) id id
          db.accounts (λ row. refl) in
      ground (arith, found, ==_iff id id)

  -- A deleted account is not read any more, and any other one as before.
  pub get_account-delete_account :
      (id j : Str) (db : Database R)
      → get_account cipher j (delete_account id db)
        ≡ (if id == j then none else get_account cipher j db)
  unfolding get_account delete_account
  get_account-delete_account id j db = ground (arith, select_one-filter id j db.accounts)

module _ {R : Type 0} where
  pub set_account_enabled-UniqueIds :
      (id : Str) (enabled : Bool) (now : ℕ) (db : Database R)
      → UniqueIds db.accounts
      → UniqueIds (set_account_enabled id enabled now db).accounts
  unfolding set_account_enabled
  set_account_enabled-UniqueIds id enabled now db u =
      UniqueIds-update_where (λ row. record row { enabled = enabled; updated_at = now }) id
        db.accounts (λ row. refl) u

  pub delete_account-UniqueIds :
      (id : Str) (db : Database R)
      → UniqueIds db.accounts
      → UniqueIds (delete_account id db).accounts
  unfolding delete_account
  delete_account-UniqueIds id db u = UniqueIds-filter id db.accounts u

module _ {R : Type 0} (cipher : Cipher) where
  get_account-id :
      (id : Str) (db : Database R) (a : Account) → get_account cipher id db ≡ some a → a.id ≡ id
  unfolding get_account
  get_account-id id db a h = elim (Option-cases (select_one (has_id id) db.accounts)) [
    | inl e ↦ absurd (ground arith)
    | inr (row, e) ↦
        scan_account-id cipher row a (ground arith) ∙ select_one-id id db.accounts row e
  ]

  read_back_lem :
      (id : Str) (db db' : Database R) (a : Account)
      → read_back cipher id db ≡ returned db' a
      → (db' ≡ db) × (get_account cipher a.id db' ≡ some a)
  unfolding read_back
  read_back_lem id db db' a h = elim (Option-cases (get_account cipher id db)) [
    | inl e ↦ absurd (ground arith)
    | inr (b, e) ↦
        let same : db' ≡ db = ground arith in
        let read : b ≡ a = ground arith in
        let found = e ∙ ap some read in
        let named = get_account-id id db a found in
        (same, rw same (subst (λ i. get_account cipher i db ≡ some a) (sym named) found))
  ]

  -- The account that an addition returns stands under its ID, and IDs stay unique where the ID that
  -- is drawn is new.
  pub add_account_lem :
      (up : Bool) (id : Str) (now : ℕ) (email name provider token : Str) (db db' : Database R)
      (a : Account)
      → UniqueIds db.accounts
      → select_one (has_id id) db.accounts ≡ none
      → add_account cipher up id now email name provider token db ≡ returned db' a
      → (get_account cipher a.id db' ≡ some a) × UniqueIds db'.accounts
  unfolding add_account
  add_account_lem up id now email name provider token db db' a u new h =
      elim (Option-cases
        (select_one (λ row. row.email == email && row.provider == provider) db.accounts)) [
          | inr (old, e) ↦ elim (Bool-cases up) [
            | inr f ↦ absurd (ground arith)
            | inl t ↦
                let change : AccountRow → AccountRow = λ row. record row {
                  refresh_token_enc = cipher.encrypt token;
                  name = name;
                  updated_at = now;
                } in
                let db1 = record db {
                  accounts = update_where (has_id old.id) change db.accounts;
                } in
                let back : read_back cipher old.id db1 ≡ returned db' a = ground arith in
                let (same, found) = read_back_lem old.id db1 db' a back in
                (found, rw same (UniqueIds-update_where change old.id db.accounts (λ row. refl) u))
          ]
          | inl e ↦ elim (Bool-cases up) [
            | inr f ↦ absurd (ground arith)
            | inl t ↦
                let row : AccountRow = record {
                  id = id;
                  email = email;
                  name = name;
                  provider = provider;
                  refresh_token_enc = cipher.encrypt token;
                  enabled = true;
                  created_at = now;
                  updated_at = now;
                } in
                let db1 = record db { accounts = db.accounts ++ row ∷ [] } in
                let back : read_back cipher id db1 ≡ returned db' a = ground arith in
                let (same, found) = read_back_lem id db1 db' a back in
                (found, rw same (UniqueIds-append row db.accounts new u))
          ]
        ]
