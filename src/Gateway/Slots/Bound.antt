-- ===== src/Gateway/Slots/Bound.antt =====
-- A channel of slots is never fuller than its capacity, whatever requests and capacities come.
use mirasim2api.Base.{
  ℕ, suc, ◌-◌, ◌≤◌, ◌≡◌, inl, inr, not, Option, none, some, List, [], ◌∷◌, Str, arith, ◌≢◌, ◌<◌,
  Bool-cases, Option-cases, ltb, ◌==◌, ==_iff, lookup, insert, lookup-insert, number_key, text_key,
}
use mirasim2api.Gateway.Slots.{Chan, Slotter, make_chan, chan_for, send, receive, acquire}

-- Every channel in the memory holds at most as many values as its capacity.
abbrev pub IsBounded : Slotter → Type 0
IsBounded s = (ch : ℕ) (c : Chan) → lookup ch s.memory ≡ some c → c.held ≤ c.capacity

put-IsBounded :
    (ch : ℕ) (c : Chan) (s : Slotter)
    → c.held ≤ c.capacity
    → IsBounded s
    → IsBounded (record s { memory = insert ch c s.memory })
put-IsBounded ch c s h bounded j d e =
    ground (arith, lookup-insert ch j c s.memory, ==_iff ch j, bounded j d)

make_chan-IsBounded :
    (key : Str) (capacity : ℕ) (s : Slotter) → IsBounded s → IsBounded (make_chan key capacity s).1
unfolding make_chan
make_chan-IsBounded key capacity s bounded =
    put-IsBounded s.next (record { capacity = capacity; held = 0 }) s (omega arith) bounded

chan_for-IsBounded :
    (key : Str) (capacity : ℕ) (s : Slotter) → IsBounded s → IsBounded (chan_for key capacity s).1
unfolding chan_for
chan_for-IsBounded key capacity s bounded = elim (Option-cases (lookup key s.chans)) [
  | inl e ↦ rw (e, chan_for) (make_chan-IsBounded key capacity s bounded)
  | inr (ch, e) ↦ elim (Option-cases (lookup ch s.memory)) [
    | inl h ↦ rw (e, chan_for, h) (make_chan-IsBounded key capacity s bounded)
    | inr (c, h) ↦ elim (Bool-cases (not (c.capacity == capacity))) [
      | inl d ↦ rw (e, chan_for, h, d) (make_chan-IsBounded key capacity s bounded)
      | inr d ↦ rw (e, chan_for, h, d) bounded
    ]
  ]
]

-- A value goes in only where there is room.
abbrev sent_or : Slotter → Option Slotter → Slotter
sent_or s none = s
sent_or s (some t) = t

send-IsBounded : (ch : ℕ) (s : Slotter) → IsBounded s → IsBounded (sent_or s (send ch s))
unfolding send
send-IsBounded ch s bounded = elim (Option-cases (lookup ch s.memory)) [
  | inl e ↦ rw (e, send) bounded
  | inr (c, e) ↦ elim (Bool-cases (ltb c.held c.capacity)) [
    | inl h ↦
        rw (e, send, h) (put-IsBounded ch (record c { held = suc c.held }) s (ground arith) bounded)
    | inr h ↦ rw (e, send, h) bounded
  ]
]

receive-IsBounded : (ch : ℕ) (s : Slotter) → IsBounded s → IsBounded (receive ch s)
unfolding receive
receive-IsBounded ch s bounded = elim (Option-cases (lookup ch s.memory)) [
  | inl e ↦ rw (e, receive) bounded
  | inr (c, e) ↦
      rw (e, receive)
        (put-IsBounded ch (record c { held = c.held - 1 }) s (omega (arith, bounded ch c e))
          bounded)
]

acquire-IsBounded :
    (key : Str) (capacity : ℕ) (s : Slotter) → IsBounded s → IsBounded (acquire key capacity s).1
unfolding acquire
acquire-IsBounded key capacity s bounded =
    let r = chan_for key capacity s in
    let sent = send-IsBounded r.0 r.1 (chan_for-IsBounded key capacity s bounded) in
    elim (Option-cases (send r.0 r.1)) [
      | inl e ↦ rw (e, acquire) (chan_for-IsBounded key capacity s bounded)
      | inr (t, e) ↦ let kept = rw e at sent in rw (e, acquire) kept
    ]

-- What requests do: they try for a slot under the capacity that their key has then, and they give a
-- slot back to the channel that it came from.
pub data SlotOp : Type 0 where
  tries : (key : Str) (capacity : ℕ) → SlotOp
  gives_back : (ch : ℕ) → SlotOp

abbrev pub after : List SlotOp → Slotter → Slotter
after [] s = s
after (tries key capacity ∷ ops) s = after ops (acquire key capacity s).1
after (gives_back ch ∷ ops) s = after ops (receive ch s)

abbrev pub no_slots : Slotter
no_slots = record { chans = []; memory = []; next = 0 }

after_any : (ops : List SlotOp) (s : Slotter) → IsBounded s → IsBounded (after ops s)
after_any [] s bounded = bounded
after_any (tries key capacity ∷ ops) s bounded =
    after_any ops (acquire key capacity s).1 (acquire-IsBounded key capacity s bounded)
after_any (gives_back ch ∷ ops) s bounded =
    after_any ops (receive ch s) (receive-IsBounded ch s bounded)

-- After any tries and returns, in any order and under any capacities, a channel in the memory holds
-- at most as many values as its capacity.
pub after_bounded :
    (ops : List SlotOp) (ch : ℕ) (c : Chan)
    → lookup ch (after ops no_slots).memory ≡ some c
    → c.held ≤ c.capacity
after_bounded ops ch c e = after_any ops no_slots (λ j d h. absurd (cc)) ch c e

-- Where the channel of a key has another capacity than the request, a request under a capacity
-- above 0 gets a slot of a new channel, however many hold one of the old channel, and the old
-- channel stays as it is.
pub acquire_resized :
    (key : Str) (capacity ch : ℕ) (c : Chan) (s : Slotter)
    → lookup key s.chans ≡ some ch
    → lookup ch s.memory ≡ some c
    → c.capacity ≢ capacity
    → ch ≢ s.next
    → 0 < capacity
    → ((acquire key capacity s).0 ≡ some s.next)
      × (lookup ch (acquire key capacity s).1.memory ≡ some c)
unfolding acquire chan_for make_chan send
acquire_resized key capacity ch c s e h differs old room =
    let fresh : Chan = record { capacity = capacity; held = 0 } in
    let full : Chan = record { capacity = capacity; held = 1 } in
    ground (
      arith,
      ==_iff c.capacity capacity,
      ==_iff s.next ch,
      ==_iff s.next s.next,
      lookup-insert s.next s.next fresh s.memory,
      lookup-insert s.next ch fresh s.memory,
      lookup-insert s.next ch full (insert s.next fresh s.memory),
    )
