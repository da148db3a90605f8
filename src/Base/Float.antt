-- ===== src/Base/Float.antt =====
-- Go's float64: the operations that the program uses, as an interface. Its two laws hold of
-- IEEE 754 comparisons, NaN included. `Micro` meets them: fixed-point numbers.
use Prim.Native.Nat.{ℕ, ◌+◌, ◌-◌, ◌*◌, ◌/◌}
use mathlib.Core.Path.{◌≡◌, refl}
use mathlib.Core.Bool.{Bool, true, false}
use native.Mathlib.Omega.{arith}
use mirasim2api.Base.Tests.{ltb, leb}

pub record Float (R : Type 0) : Type 0 where
  pub zero : R
  pub one : R
  pub min_weight : R
  pub million : R
  pub of_ℕ : ℕ → R
  pub add : R → R → R
  pub sub : R → R → R
  pub mul : R → R → R
  pub div : R → R → R
  pub lt : R → R → Bool
  pub le : R → R → Bool
  pub lt_irrefl : (a : R) → lt a a ≡ false
  pub lt_trans : (a b c : R) → lt a b ≡ true → lt b c ≡ true → lt a c ≡ true

-- What holds besides where no value is NaN: the order is total, and 0 is below 1.
pub record NoNan {R : Type 0} (f : Float R) : Type 0 where
  pub le_of_not_lt : (a b : R) → f.lt a b ≡ false → f.le b a ≡ true
  pub not_le_of_lt : (a b : R) → f.lt a b ≡ true → f.le b a ≡ false
  pub lt_of_le_of_lt : (a b c : R) → f.le a b ≡ true → f.lt b c ≡ true → f.lt a c ≡ true
  pub zero_lt_one : f.lt f.zero f.one ≡ true

pub ltb_irrefl : (a : ℕ) → ltb a a ≡ false
ltb_irrefl a = ground arith

pub ltb_trans : (a b c : ℕ) → ltb a b ≡ true → ltb b c ≡ true → ltb a c ≡ true
ltb_trans a b c h k = ground arith

-- Millionths, rounded down; a difference below zero is zero.
instance abbrev pub micro : Float ℕ
micro = record {
  zero = 0;
  one = 1_000_000;
  min_weight = 50_000;
  million = 1_000_000_000_000;
  of_ℕ = λ n. n * 1_000_000;
  add = λ a b. a + b;
  sub = λ a b. a - b;
  mul = λ a b. a * b / 1_000_000;
  div = λ a b. a * 1_000_000 / b;
  lt = ltb;
  le = leb;
  lt_irrefl = ltb_irrefl;
  lt_trans = ltb_trans;
}

pub le_of_not_lt : (a b : ℕ) → ltb a b ≡ false → leb b a ≡ true
le_of_not_lt a b h = ground arith

pub not_le_of_lt : (a b : ℕ) → ltb a b ≡ true → leb b a ≡ false
not_le_of_lt a b h = ground arith

pub lt_of_le_of_lt : (a b c : ℕ) → leb a b ≡ true → ltb b c ≡ true → ltb a c ≡ true
lt_of_le_of_lt a b c h k = ground arith

abbrev pub micro_no_nan : NoNan micro
micro_no_nan = record {
  le_of_not_lt = le_of_not_lt;
  not_le_of_lt = not_le_of_lt;
  lt_of_le_of_lt = lt_of_le_of_lt;
  zero_lt_one = refl;
}
