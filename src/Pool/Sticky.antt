-- ===== src/Pool/Sticky.antt =====
-- internal/pool/pool.go: the pool's state, and the session affinity map with its LRU list. The
-- list (`container/list`, front first) holds a key under a handle, which stands for the
-- `*list.Element` that an affinity entry points to; a push takes a handle not used before.
pub mod Invariant
pub mod Bound
pub mod Room
use mirasim2api.Base.{
  ℕ, zero, suc, ◌+◌, ◌*◌, true, false, none, some, [], ◌∷◌, ◌++◌, Str, leb, length, Map, lookup,
  insert, erase, number_key, text_key,
}
use mirasim2api.Pool.Entry.{Entry, minute}

abbrev pub sticky_ttl : ℕ
sticky_ttl = 10 * minute

abbrev pub sticky_max_entries : ℕ
sticky_max_entries = 1000

pub record StickyEntry : Type 0 where
  pub account_id : Str
  pub expires_at : ℕ
  pub elem : ℕ

-- `entries` is in the order in which the runtime iterates; no order is preferred.
pub record Pool (R : Type 0) : Type 0 where
  pub entries : Map Str (Entry R)
  pub sticky : Map Str StickyEntry
  pub lru : Map ℕ Str
  pub next_elem : ℕ

-- `lru.MoveToBack(elem)`
unfoldable pub move_to_back : ℕ → Map ℕ Str → Map ℕ Str
move_to_back elem lru = elim (lookup elem lru) [
  | none ↦ lru
  | some key ↦ erase elem lru ++ (elem, key) ∷ []
]

module _ {R : Type 0} where
  unfoldable pub remove_sticky : Str → Pool R → Pool R
  remove_sticky key p = elim (lookup key p.sticky) [
    | none ↦ p
    | some se ↦ record p { sticky = erase key p.sticky; lru = erase se.elem p.lru }
  ]

  -- The loop of `setSticky` that makes room. Each round removes an entry, so one round more than
  -- the map has entries is fuel enough.
  unfoldable pub make_room : ℕ → Pool R → Pool R
  make_room zero p = p
  make_room (suc fuel) p = elim (leb sticky_max_entries (length p.sticky)) [
    | false ↦ p
    | true ↦ elim p.lru [ [] ↦ p | (elem, key) ∷ rest ↦ make_room fuel (remove_sticky key p) ]
  ]

  -- `p.lru.PushBack(key)` and the new map entry.
  unfoldable pub push_sticky : Str → Str → ℕ → Pool R → Pool R
  push_sticky key account_id now p = record p {
    sticky =
        insert key
          (record { account_id = account_id; expires_at = now + sticky_ttl; elem = p.next_elem })
          p.sticky;
    lru = p.lru ++ (p.next_elem, key) ∷ [];
    next_elem = suc p.next_elem;
  }

  -- An entry that is there is pointed to the account, and counts as just used.
  unfoldable pub renew_sticky : Str → StickyEntry → Str → ℕ → Pool R → Pool R
  renew_sticky key se account_id now p = record p {
    sticky =
        insert key (record se { account_id = account_id; expires_at = now + sticky_ttl }) p.sticky;
    lru = move_to_back se.elem p.lru;
  }

  unfoldable pub set_sticky : Str → Str → ℕ → Pool R → Pool R
  set_sticky key account_id now p = elim (lookup key p.sticky) [
    | some se ↦ renew_sticky key se account_id now p
    | none ↦ push_sticky key account_id now (make_room (suc (length p.sticky)) p)
  ]
