-- ===== src/Admin/Accounts/Handlers.antt =====
-- What the handlers leave in store and pool.
use mirasim2api.Base.{
  ◌≡◌, refl, ◌∙◌, Bool, true, none, some, Str, arith, inl, inr, Option-cases, Bool-cases, ◌==◌,
  ==_iff, text_key, if◌then◌else◌,
}
use mirasim2api.Pool.Entry.{Account}
use mirasim2api.Pool.Reload.{reload, get, refreshed, reload_lem}
use mirasim2api.Pool.Sticky.{Pool}
use mirasim2api.Store.Accounts.{Cipher, get_account, list_accounts, delete_account}
use mirasim2api.Store.Accounts.Unique.{UniqueIds}
use mirasim2api.Store.Accounts.Reading.{
  find-list_accounts, list_accounts-DistinctIds, get_account-delete_account,
  delete_account-UniqueIds,
}
use mirasim2api.Store.Database.{Database}
use mirasim2api.Admin.Accounts.{deleted, handle_account_delete}

no_list :
    {R : Type 0} (client_ok : Account → Bool) (p : Pool R) → (reload client_ok none p).1 ≡ true → ⊥
no_list client_ok p h = unfold reload in ground arith

module _ {R S : Type 0} (cipher : Cipher) (client_ok : Account → Bool) where
  abbrev reload_from : Database S → Pool R → Pool R × Bool
  reload_from db p = reload client_ok (list_accounts cipher db) p

  -- What a pool that was reloaded holds for an ID is what the store reads for it.
  pub get-reload :
      (id : Str) (db : Database S) (p : Pool R)
      → UniqueIds db.accounts
      → (reload client_ok (list_accounts cipher db) p).1 ≡ true
      → get id (reload client_ok (list_accounts cipher db) p).0
        ≡ (elim (get_account cipher id db) [ none ↦ none | some a ↦ some (refreshed a (get id p)) ])
  get-reload id db p u h = elim (Option-cases (list_accounts cipher db)) [
    | inl e ↦ absurd (no_list client_ok p (rw e at h))
    | inr (l, e) ↦
        rw (e, ← find-list_accounts cipher id db l u e)
          (reload_lem client_ok l p id (list_accounts-DistinctIds cipher db l u e) (rw e at h))
  ]

  -- Where the IDs of the table are unique, a deletion that is answered as done leaves the account
  -- neither in the store nor in the pool, and every other account reads as before.
  pub handle_account_delete_lem :
      (up : Bool) (id : Str) (db : Database S) (p : Pool R)
      → UniqueIds db.accounts
      → (handle_account_delete cipher client_ok up id db p).2 ≡ deleted
      → (get id (handle_account_delete cipher client_ok up id db p).1 ≡ none)
        × ((j : Str)
            → get_account cipher j (handle_account_delete cipher client_ok up id db p).0
              ≡ (if id == j then none else get_account cipher j db))
  unfolding handle_account_delete
  handle_account_delete_lem up id db p u h = elim (Option-cases (get_account cipher id db)) [
    | inl e ↦ absurd (ground arith)
    | inr (a, e) ↦ elim (Bool-cases up) [
      | inr f ↦ absurd (ground arith)
      | inl t ↦
          let db' = delete_account id db in
          elim (Bool-cases (reload client_ok (list_accounts cipher db') p).1) [
            | inr not_loaded ↦ absurd (ground arith)
            | inl loaded ↦
                let gone : get_account cipher id db' ≡ none =
                  ground (arith, get_account-delete_account cipher id id db, ==_iff id id) in
                rw (handle_account_delete, e, t)
                  (
                    get-reload id db' p (delete_account-UniqueIds id db u) loaded ∙ rw gone refl,
                    λ j. get_account-delete_account cipher id j db,
                  )
          ]
    ]
  ]
