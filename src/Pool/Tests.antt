-- ===== src/Pool/Tests.antt =====
-- Runs of the pool, and its theorems at concrete inputs.
use mirasim2api.Base.{
  ℕ, zero, suc, ◌≤◌, ◌≡◌, ◌≢◌, ◌+◌, ◌==◌, if◌then◌else◌, refl, Bool, true, false, none, some, [],
  ◌∷◌, ◌++◌, String, Str, str, arith, ==_iff, length, Map, lookup, lookup-insert, length-insert_new,
  ap, text_key, number_key, str_beq, replicate,
}
use mirasim2api.Base.Float.{micro}
use mirasim2api.Base.Int.{pos, ◌≤ℤ◌, ltb_ℤ}
use mirasim2api.Pool.Entry.{Account, Entry, Failure, usable, limits_ok}
use mirasim2api.Pool.Report.{report_failure, err_summary, is_5xx}
use mirasim2api.Pool.Sticky.{Pool, StickyEntry, set_sticky, push_sticky, make_room, sticky_ttl}
use mirasim2api.Pool.Pick.{pick, pick_new, candidates, is_candidate, pick_weighted, draw, affinity}
use mirasim2api.Pool.Cooldown.{report_failure_late}
use mirasim2api.Pool.Slots.{
  Slots, Reach, here, next, load, swap, idle, holding, loaded, slots_bounded,
}
use mirasim2api.Base.Text.{join_fields, space_width}
use mirasim2api.Pool.Choice.{Keyed, Offers, pick-Offers}
use mirasim2api.Pool.Affinity.{pick-IsTidy, PickThen, picks_then, pick_again}
use mirasim2api.Pool.Sticky.Invariant.{Linked, push_sticky-Linked, pushed}
use mirasim2api.Pool.Sticky.Bound.{IsTidy, set_sticky_evicts}

abbrev account : String → Bool → Account
account id on = record {
  id = str id;
  email = str "a@b";
  name = str "n";
  provider = str "github";
  refresh_token = str "t";
  enabled = on;
  created_at = 0;
  updated_at = 0;
}

abbrev entry : String → Bool → Entry ℕ
entry id on = record {
  account = account id on;
  inflight = pos 0;
  failures = 0;
  cooldown_until = 0;
  limits = none;
  last_error = [];
}

-- One account in service and one that is switched off.
abbrev two : Pool ℕ
two = record {
  entries = (str "off", entry "off" false) ∷ (str "on", entry "on" true) ∷ [];
  sticky = [];
  lru = [];
  next_elem = 0;
}

two-Keyed : Keyed two.entries
two-Keyed id e h = ground (arith, ==_iff (str "off") id, ==_iff (str "on") id)

two-IsTidy : IsTidy two
two-IsTidy = (
  record {
    to_elem = λ key se h. absurd (cc);
    to_entry = λ elem key h. absurd (cc);
    new_elem = λ elem key h. absurd (cc);
  },
  omega arith,
)

pick-Offers_example : Offers [] 100 two.entries (pick 500_000 [] (str "s") 100 two).0
pick-Offers_example = pick-Offers 500_000 [] (str "s") 100 two two-Keyed

pick-IsTidy_example : IsTidy (pick 500_000 [] (str "s") 100 two).1
pick-IsTidy_example = pick-IsTidy 500_000 [] (str "s") 100 two two-IsTidy

-- Between the two, a pick under another key.
abbrev other_pick : PickThen ℕ
other_pick = record {
  u = 0;
  exclude = [];
  key = str "t";
  now = 200;
  entries = (str "on", entry "on" true) ∷ [];
}

pick_again_example :
    (pick 0 [] (str "s") 700 (
      picks_then
        (other_pick ∷ [])
        (record (pick 500_000 [] (str "s") 100 two).1 { entries = two.entries }))).0
    ≡ some (entry "on" true)
unfolding pick pick_new candidates is_candidate pick_weighted draw usable limits_ok str_beq affinity
    set_sticky push_sticky make_room
pick_again_example =
    pick_again 500_000 0 [] [] (str "s") 100 700 two (entry "on" true) (entry "on" true) two.entries
      (other_pick ∷ []) two-Keyed refl refl (omega arith) refl (omega arith) refl refl refl

-- A pool whose affinity map holds `n` keys.
filled : ℕ → Pool ℕ
filled zero = record { entries = []; sticky = []; lru = []; next_elem = 0 }
filled (suc n) = push_sticky (n ∷ []) (str "on") 0 (filled n)

filled_fresh : (n k : ℕ) → n ≤ k → lookup (k ∷ []) (filled n).sticky ≡ none
unfolding filled push_sticky str_beq
filled_fresh zero k h = refl
filled_fresh (suc n) k h = ground (
  arith,
  lookup-insert (n ∷ []) (k ∷ []) (pushed (str "on") 0 (filled n).next_elem) (filled n).sticky,
  filled_fresh n k,
)

filled-Linked : (n : ℕ) → Linked (filled n)
unfolding filled
filled-Linked zero = record {
  to_elem = λ key se h. absurd (cc);
  to_entry = λ elem key h. absurd (cc);
  new_elem = λ elem key h. absurd (cc);
}
filled-Linked (suc n) =
    push_sticky-Linked (n ∷ []) (str "on") 0 (filled n) (filled_fresh n n (omega arith))
      (filled-Linked n)

length-filled : (n : ℕ) → length (filled n).sticky ≡ n
unfolding filled push_sticky
length-filled zero = refl
length-filled (suc n) = omega (
  arith,
  length-insert_new (n ∷ []) (pushed (str "on") 0 (filled n).next_elem) (filled n).sticky
      (filled_fresh n n (omega arith)),
  length-filled n,
)

filled_front : (n : ℕ) → (rest : Map ℕ Str) × ((filled (suc n)).lru ≡ (0, 0 ∷ []) ∷ rest)
unfolding filled push_sticky
filled_front zero = ([], refl)
filled_front (suc n) =
    let (rest, e) = filled_front n in
    (
      rest ++ ((filled (suc n)).next_elem, suc n ∷ []) ∷ [],
      ap (λ l. l ++ ((filled (suc n)).next_elem, suc n ∷ []) ∷ []) e,
    )

set_sticky_evicts_example :
    ((se : StickyEntry) × (lookup
          (1000 ∷ [])
          (set_sticky (1000 ∷ []) (str "on") 5 (filled 1000)).sticky
        ≡ some se)
      × (se.account_id ≡ str "on")
      × (se.expires_at ≡ 5 + sticky_ttl))
    × ((j : Str)
        → j ≢ (1000 ∷ [])
        → lookup j (set_sticky (1000 ∷ []) (str "on") 5 (filled 1000)).sticky
          ≡ (if (0 ∷ []) == j then none else lookup j (filled 1000).sticky))
set_sticky_evicts_example =
    set_sticky_evicts (1000 ∷ []) (str "on") 5 (filled 1000) 0 (0 ∷ []) (filled_front 999).0
      (filled-Linked 1000) (length-filled 1000) (filled_front 999).1
      (filled_fresh 1000 1000 (omega arith))

-- A refused request, and a server error.
abbrev forbidden : Failure
forbidden = record { text = str "HTTP 403"; http_status = some 403 }

abbrev broken : Failure
broken = record { text = str "HTTP 502"; http_status = some 502 }

abbrev worn : Entry ℕ
worn = record (entry "on" true) { failures = 55; cooldown_until = 9_000_000_000_000 }

report_failure_late_example :
    usable 7 (report_failure 7 forbidden worn).0 ≡ usable 7 (record worn { cooldown_until = 0 })
unfolding is_5xx
report_failure_late_example = report_failure_late 7 forbidden worn refl (omega arith)

-- Two goroutines that load the counter before either swaps it.
abbrev one_holds : Slots
one_holds = record { inflight = pos 1; phases = holding ∷ loaded (pos 0) ∷ [] }

race : Reach (pos 1) (record { inflight = pos 0; phases = replicate 2 idle }) one_holds
race =
    next
      (next (next here (load [] (idle ∷ []) refl refl)) (load (loaded (pos 0) ∷ []) [] refl refl))
      (swap [] (loaded (pos 0) ∷ []) (pos 0) refl refl refl refl)

slots_bounded_example : (pos 1 ≡ pos 1) × (ltb_ℤ (pos 0) (pos 1) ≡ true → pos 1 ≤ℤ pos 1)
slots_bounded_example = slots_bounded (pos 1) 2 one_holds race

err_summary_runs : err_summary (str " a\n b ") ≡ str "a b"
unfolding err_summary join_fields space_width
err_summary_runs = refl
