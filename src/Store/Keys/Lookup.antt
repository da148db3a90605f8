-- ===== src/Store/Keys/Lookup.antt =====
-- A new key is found by its plaintext, and a key that is found is the one that was created.
use mirasim2api.Base.{
  ℕ, ◌≡◌, refl, Bool, true, false, none, some, List, [], ◌∷◌, ◌++◌, Str, str, arith, ◌==◌, ==_iff,
  if◌then◌else◌, text_key,
}
use mirasim2api.Base.Float.{Float}
use mirasim2api.Store.Rows.{ApiKey}
use mirasim2api.Store.Database.{KeyRow, Database, select_one}
use mirasim2api.Store.Keys.{KeyOpts, display_of, create_api_key, get_api_key_by_plaintext}

module _ {R : Type 0} ⦃f : Float R⦄ where
  select-append :
      (p : KeyRow R → Bool) (rows : List (KeyRow R)) (row : KeyRow R)
      → select_one p (rows ++ row ∷ [])
        ≡ elim (select_one p rows) [ some old ↦ some old | none ↦ if p row then some row else none ]
  select-append p [] row = refl
  select-append p (x ∷ rows) row = ground (arith, select-append p rows row)

  abbrev pub new_key : Str → ℕ → Str → Str → KeyOpts → ApiKey R
  new_key id now name plaintext opts = record {
    id = id;
    name = name;
    key_display = display_of plaintext;
    enabled = true;
    concurrency = opts.concurrency;
    rate_limit_rpm = opts.rate_limit_rpm;
    model_allowlist = opts.model_allowlist;
    total_input_tokens = 0;
    total_output_tokens = 0;
    total_cost = f.zero;
    expires_at = opts.expires_at;
    created_at = now;
    last_used_at = none;
  }

  -- Where no key has the hash of the new plaintext, the plaintext that is returned finds the new
  -- key, enabled and with the options given, and every text of another hash finds what it found.
  pub create_api_key-found :
      (hash : Str → Str) (plain id : Str) (now : ℕ) (name : Str) (opts : KeyOpts) (db : Database R)
      (other : Str)
      → get_api_key_by_plaintext hash db (str "sk-" ++ plain) ≡ none
      → (hash (str "sk-" ++ plain) == hash other) ≡ false
      → let (db', plaintext) = create_api_key hash plain id now name opts db in
        (get_api_key_by_plaintext hash db' plaintext ≡ some (new_key id now name plaintext opts))
        × (get_api_key_by_plaintext hash db' other ≡ get_api_key_by_plaintext hash db other)
  unfolding create_api_key get_api_key_by_plaintext
  create_api_key-found hash plain id now name opts db other fresh differs =
      let plaintext = str "sk-" ++ plain in
      let row : KeyRow R = record {
        key_hash = hash plaintext;
        key = new_key id now name plaintext opts;
      } in
      ground (
        arith,
        ==_iff (hash plaintext) (hash plaintext),
        select-append (λ k. k.key_hash == hash plaintext) db.api_keys row,
        select-append (λ k. k.key_hash == hash other) db.api_keys row,
      )
