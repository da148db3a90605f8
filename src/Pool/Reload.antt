-- ===== src/Pool/Reload.antt =====
-- internal/pool/pool.go: `Reload`, `Add`, `Get`. Whether a protocol client can be made for an
-- account is the argument `client_ok`; the accounts are what the store lists, or its error.
use mirasim2api.Base.{
  ◌≡◌, refl, Bool, true, false, ◌||◌, Option, none, some, List, [], ◌∷◌, Str, arith, ==_iff, ◌==◌,
  if◌then◌else◌, Map, lookup, insert, lookup-insert, text_key, Bool-cases, inl, inr,
}
use mirasim2api.Pool.Entry.{Account, Entry, fresh}
use mirasim2api.Pool.Sticky.{Pool}

-- `seen[id]`
unfoldable pub seen : List Account → Str → Bool
seen [] id = false
seen (a ∷ rest) id = a.id == id || seen rest id

module _ {R : Type 0} where
  -- An account that has an entry keeps its runtime state.
  unfoldable pub refreshed : Account → Option (Entry R) → Entry R
  refreshed a none = fresh a
  refreshed a (some e) = record e { account = a }

  -- The loop over the accounts: the entries so far, and whether it went through.
  unfoldable pub load_all :
      (Account → Bool) → List Account → Map Str (Entry R) → Map Str (Entry R) × Bool
  load_all client_ok [] m = (m, true)
  load_all client_ok (a ∷ rest) m = elim (lookup a.id m) [
    | some e ↦ load_all client_ok rest (insert a.id (refreshed a (some e)) m)
    | none ↦ elim (client_ok a) [
      | true ↦ load_all client_ok rest (insert a.id (refreshed a none) m)
      | false ↦ (m, false)
    ]
  ]

  -- The loop that deletes what was not seen.
  unfoldable pub prune : List Account → Map Str (Entry R) → Map Str (Entry R)
  prune rest [] = []
  prune rest ((id, e) ∷ m) = if seen rest id then (id, e) ∷ prune rest m else prune rest m

  unfoldable pub reload : (Account → Bool) → Option (List Account) → Pool R → Pool R × Bool
  reload client_ok none p = (p, false)
  reload client_ok (some accounts) p =
      let (m, went_through) = load_all client_ok accounts p.entries in
      if went_through
      then (record p { entries = prune accounts m }, true)
      else (record p { entries = m }, false)

  unfoldable pub add : Entry R → Pool R → Pool R
  add e p = record p { entries = insert e.account.id e p.entries }

  unfoldable pub get : Str → Pool R → Option (Entry R)
  get account_id p = lookup account_id p.entries

-- The first account with an ID.
abbrev pub find_account : Str → List Account → Option Account
find_account id [] = none
find_account id (a ∷ rest) = if a.id == id then some a else find_account id rest

-- No ID stands twice, as the primary key of the table makes sure.
abbrev pub DistinctIds : List Account → Type 0
DistinctIds [] = Unit
DistinctIds (a ∷ rest) = (find_account a.id rest ≡ none) × DistinctIds rest

abbrev is_found : Option Account → Bool
is_found none = false
is_found (some a) = true

seen_lem : (id : Str) (l : List Account) → seen l id ≡ is_found (find_account id l)
unfolding seen
seen_lem id [] = refl
seen_lem id (a ∷ rest) = ground (arith, seen_lem id rest)

module _ {R : Type 0} where
  -- What the pool holds for an ID after the accounts were loaded.
  abbrev pub reloaded : Option Account → Option (Entry R) → Option (Entry R)
  reloaded none old = old
  reloaded (some a) old = some (refreshed a old)

  load_one :
      (client_ok : Account → Bool) (a : Account) (rest : List Account) (m : Map Str (Entry R))
      → (load_all client_ok (a ∷ rest) m).1 ≡ true
      → load_all client_ok (a ∷ rest) m
        ≡ load_all client_ok rest (insert a.id (refreshed a (lookup a.id m)) m)
  unfolding load_all
  load_one client_ok a rest m h = ground arith

  lookup-load_all :
      (client_ok : Account → Bool) (id : Str) (l : List Account) (m : Map Str (Entry R))
      → DistinctIds l
      → (load_all client_ok l m).1 ≡ true
      → lookup id (load_all client_ok l m).0 ≡ reloaded (find_account id l) (lookup id m)
  lookup-load_all client_ok id [] m d h = unfold load_all in refl
  lookup-load_all client_ok id (a ∷ rest) m d h =
      let e = load_one client_ok a rest m h in
      let x = refreshed a (lookup a.id m) in
      let ih = lookup-load_all client_ok id rest (insert a.id x m) d.1 (rw e at h) in
      rw (e, ih, lookup-insert a.id id x m)
        (elim (Bool-cases (a.id == id)) [
          | inl hit ↦ let same : a.id ≡ id = (==_iff a.id id).0 hit in rw (hit, ← same, d.0) refl
          | inr miss ↦ rw miss
        ])

  lookup-prune :
      (l : List Account) (id : Str) (m : Map Str (Entry R))
      → lookup id (prune l m) ≡ (if seen l id then lookup id m else none)
  unfolding prune
  lookup-prune l id [] = ground arith
  lookup-prune l id ((k, e) ∷ m) = ground (arith, ==_iff k id, lookup-prune l id m)

  pub reload_lem :
      (client_ok : Account → Bool) (accounts : List Account) (p : Pool R) (id : Str)
      → DistinctIds accounts
      → (reload client_ok (some accounts) p).1 ≡ true
      → get id (reload client_ok (some accounts) p).0
        ≡ (elim (find_account id accounts) [ none ↦ none | some a ↦ some (refreshed a (get id p)) ])
  unfolding reload get
  reload_lem client_ok accounts p id d h = ground (
    arith,
    lookup-load_all client_ok id accounts p.entries d,
    lookup-prune accounts id (load_all client_ok accounts p.entries).0,
    seen_lem id accounts,
  )
