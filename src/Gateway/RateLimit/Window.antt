-- ===== src/Gateway/RateLimit/Window.antt =====
-- The limiter forgets every hit that has left the window, and yet decides as one that remembers
-- all of them.
use mirasim2api.Base.{
  ℕ, ◌≤◌, ◌≡◌, refl, sym, ◌∙◌, ap, ap₂, inl, inr, Bool, true, false, List, [], ◌∷◌, ◌++◌, Str,
  arith, ltb, leb, ==_iff, ◌==◌, if◌then◌else◌, length, filter, count, length-filter, filter-append,
  insert, lookup-insert, text_key, Bool-cases,
}
use mathlib.Core.List.{append-nil}
use native.Mathlib.Nat.{le_trans}
use mirasim2api.Gateway.RateLimit.{Limiter, Verdict, allowed, hits_of, in_window, refusal, allow}

-- A request of a key at a time, under the rate that the key has then.
pub record Request : Type 0 where
  pub key : Str
  pub rpm : ℕ
  pub at : ℕ

-- Everything that was ever let through.
abbrev pub History : Type 0
History = List (Str × ℕ)

abbrev pub times : Str → History → List ℕ
times key [] = []
times key ((k, t) ∷ h) = if k == key then t ∷ times key h else times key h

-- The specification: let a request through if its key has fewer than `rpm` hits in the last minute.
abbrev pub admits : Request → History → Bool
admits r h = ltb (count (in_window r.at) (times r.key h)) r.rpm

abbrev pub is_allowed : Verdict → Bool
is_allowed allowed = true
is_allowed _ = false

unfoldable pub spec_run : List Request → History → List Bool
spec_run [] h = []
spec_run (r ∷ rs) h = admits r h ∷ spec_run rs (if admits r h then h ++ (r.key, r.at) ∷ [] else h)

unfoldable pub run : List Request → Limiter → List Bool
run [] l = []
run (r ∷ rs) l = let (v, l') = allow r.key r.rpm r.at l in is_allowed v ∷ run rs l'

-- The clock does not go back.
abbrev pub IsOrdered : ℕ → List Request → Type 0
IsOrdered t [] = Unit
IsOrdered t (r ∷ rs) = (t ≤ r.at) × IsOrdered r.at rs

-- From `t` on, the limiter and the history show the same hits in the window.
abbrev Tracks : ℕ → Limiter → History → Type 0
Tracks t l h =
    (key : Str) (now : ℕ)
    → t ≤ now
    → filter (in_window now) (hits_of key l) ≡ filter (in_window now) (times key h)

filter_twice :
    (t now : ℕ) (ts : List ℕ)
    → t ≤ now
    → filter (in_window now) (filter (in_window t) ts) ≡ filter (in_window now) ts
filter_twice t now [] h = refl
filter_twice t now (x ∷ ts) h = ground (arith, filter_twice t now ts h)

times-append :
    (key k : Str) (t : ℕ) (h : History)
    → times key (h ++ (k, t) ∷ []) ≡ times key h ++ (if k == key then t ∷ [] else [])
times-append key k t [] = ground arith
times-append key k t ((j, x) ∷ h) = ground (arith, times-append key k t h)

pub hits_of-insert :
    (key k : Str) (ts : List ℕ) (l : Limiter)
    → hits_of key (insert k ts l) ≡ (if k == key then ts else hits_of key l)
hits_of-insert key k ts l = ground (arith, lookup-insert k key ts l)

-- A refused request leaves the window as it was.
refusal_window :
    (k : Str) (at now : ℕ) (ts : List ℕ) (l : Limiter) (key : Str)
    → filter (in_window at) (hits_of k l) ≡ ts
    → at ≤ now
    → filter (in_window now) (hits_of key (refusal at k ts l).1)
      ≡ filter (in_window now) (hits_of key l)
unfolding refusal
refusal_window k at now [] l key e h = refl
refusal_window k at now (t ∷ ts) l key e h = elim (Bool-cases (k == key)) [
  | inl hit ↦
      let same : k ≡ key = (==_iff k key).0 hit in
      rw (hits_of-insert key k (t ∷ ts) l, hit)
        (sym (ap (filter (in_window now)) e)
          ∙ filter_twice at now (hits_of k l) h
          ∙ ap (λ j. filter (in_window now) (hits_of j l)) same)
  | inr miss ↦ rw (hits_of-insert key k (t ∷ ts) l, miss)
]

-- One that is let through adds its time for its key.
push_window :
    (k : Str) (at now : ℕ) (l : Limiter) (key : Str)
    → at ≤ now
    → filter
        (in_window now)
        (hits_of key (insert k (filter (in_window at) (hits_of k l) ++ at ∷ []) l))
      ≡ filter (in_window now) (hits_of key l ++ (if k == key then at ∷ [] else []))
push_window k at now l key h = elim (Bool-cases (k == key)) [
  | inl hit ↦
      let same : k ≡ key = (==_iff k key).0 hit in
      rw (hits_of-insert key k (filter (in_window at) (hits_of k l) ++ at ∷ []) l, hit, same)
        (ground (
          arith,
          filter-append (in_window now) (filter (in_window at) (hits_of key l)) (at ∷ []),
          filter-append (in_window now) (hits_of key l) (at ∷ []),
          filter_twice at now (hits_of key l) h,
        ))
  | inr miss ↦
      rw (hits_of-insert key k (filter (in_window at) (hits_of k l) ++ at ∷ []) l, miss)
        (rw (append-nil (hits_of key l)))
]

-- The limiter admits what the history says.
kept_count :
    (t : ℕ) (r : Request) (l : Limiter) (h : History)
    → Tracks t l h
    → t ≤ r.at
    → length (filter (in_window r.at) (hits_of r.key l)) ≡ count (in_window r.at) (times r.key h)
kept_count t r l h tracks later =
    ap length (tracks r.key r.at later) ∙ length-filter (in_window r.at) (times r.key h)

next_history : Request → History → History
next_history r h = if admits r h then h ++ (r.key, r.at) ∷ [] else h

refusal_refuses :
    (now : ℕ) (key : Str) (ts : List ℕ) (l : Limiter) → is_allowed (refusal now key ts l).0 ≡ false
unfolding refusal
refusal_refuses now key [] l = refl
refusal_refuses now key (t ∷ ts) l = refl

module _ (t : ℕ) (r : Request) (l : Limiter) (h : History) (tracks : Tracks t l h)
    (later : t ≤ r.at) where
  decides : is_allowed (allow r.key r.rpm r.at l).0 ≡ admits r h
  unfolding allow
  decides = ground (
    arith,
    kept_count t r l h tracks later,
    refusal_refuses r.at r.key (filter (in_window r.at) (hits_of r.key l)) l,
  )

  next-Tracks : Tracks r.at (allow r.key r.rpm r.at l).1 (next_history r h)
  unfolding allow next_history
  next-Tracks key now soon =
      let same = kept_count t r l h tracks later in
      let old = tracks key now (le_trans later soon) in
      elim (Bool-cases (leb r.rpm (length (filter (in_window r.at) (hits_of r.key l))))) [
        | inl full ↦
            let refused : admits r h ≡ false = ground arith in
            rw (full, refused) (refusal_window r.key r.at now _ l key refl soon ∙ old)
        | inr room ↦
            let admitted : admits r h ≡ true = ground arith in
            rw (room, admitted)
              (push_window r.key r.at now l key soon
                ∙ filter-append (in_window now) (hits_of key l) _
                ∙ ap (λ xs. xs ++ filter (in_window now) (if r.key == key then r.at ∷ [] else []))
                    old
                ∙ sym (filter-append (in_window now) (times key h) _)
                ∙ ap (filter (in_window now)) (sym (times-append key r.key r.at h)))
      ]

run-Tracks :
    (rs : List Request) (t : ℕ) (l : Limiter) (h : History)
    → Tracks t l h
    → IsOrdered t rs
    → run rs l ≡ spec_run rs h
unfolding run spec_run next_history
run-Tracks [] t l h tracks o = refl
run-Tracks (r ∷ rs) t l h tracks (later, o) = ap₂ ◌∷◌ (decides t r l h tracks later) (
    run-Tracks rs r.at (allow r.key r.rpm r.at l).1 (next_history r h)
      (next-Tracks t r l h tracks later) o)

-- From the empty limiter on, whatever keys and rates the requests have, as long as the clock does
-- not go back, a request is let through exactly if fewer than its key's rate were let through for
-- that key in the minute before it.
pub run-eq-spec_run : (rs : List Request) (t : ℕ) → IsOrdered t rs → run rs [] ≡ spec_run rs []
run-eq-spec_run rs t o = run-Tracks rs t [] [] (λ key now h. refl) o
