-- ===== src/Gateway/Slots.antt =====
-- internal/gateway/auth.go: the slots of an API key. A channel is its capacity and the number of
-- values in it; `chans` names, for each key, the channel that new requests use.
pub mod Bound
use mirasim2api.Base.{
  ℕ, suc, ◌-◌, not, Option, none, some, Str, ltb, ◌==◌, if◌then◌else◌, Map, lookup, insert,
  number_key, text_key,
}

pub record Chan : Type 0 where
  pub capacity : ℕ
  pub held : ℕ

-- `memory` holds the channels by address; `next` is the address of the next one made.
pub record Slotter : Type 0 where
  pub chans : Map Str ℕ
  pub memory : Map ℕ Chan
  pub next : ℕ

-- How a wait in `select` ends where the channel is full.
pub data Wait : Type 0 where
  slot_freed cancelled timed_out : Wait

unfoldable pub make_chan : Str → ℕ → Slotter → ℕ × Slotter
make_chan key capacity s = (
  s.next,
  record {
    chans = insert key s.next s.chans;
    memory = insert s.next (record { capacity = capacity; held = 0 }) s.memory;
    next = suc s.next;
  },
)

unfoldable pub chan_for : Str → ℕ → Slotter → ℕ × Slotter
chan_for key capacity s = elim (lookup key s.chans) [
  | none ↦ make_chan key capacity s
  | some ch ↦ elim (lookup ch s.memory) [
    | none ↦ make_chan key capacity s
    | some c ↦ if not (c.capacity == capacity) then make_chan key capacity s else (ch, s)
  ]
]

-- `ch <- struct{}{}` where it does not block.
unfoldable pub send : ℕ → Slotter → Option Slotter
send ch s = elim (lookup ch s.memory) [
  | none ↦ none
  | some c ↦
      if ltb c.held c.capacity
      then some (record s { memory = insert ch (record c { held = suc c.held }) s.memory })
      else none
]

-- The release function: `<-ch`.
unfoldable pub receive : ℕ → Slotter → Slotter
receive ch s = elim (lookup ch s.memory) [
  | none ↦ s
  | some c ↦ record s { memory = insert ch (record c { held = c.held - 1 }) s.memory }
]

-- One try of `acquire`: the channel it settles on, and whether a slot is taken at once. A request
-- that finds none waits for a release, the end of its context or the timer.
unfoldable pub acquire : Str → ℕ → Slotter → Option ℕ × Slotter
acquire key capacity s =
    let (ch, s') = chan_for key capacity s in
    elim (send ch s') [ none ↦ (none, s') | some taken ↦ (some ch, taken) ]
