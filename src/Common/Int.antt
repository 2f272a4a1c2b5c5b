-- ===== src/Common/Int.antt =====
-- `int64_t` values as integers over the native numbers; `negsuc n` is -(n + 1).
use Prim.Native.Nat.{ℕ, suc, ◌+◌, ◌-◌, ◌%◌, ◌≤◌, ◌<◌}
use mathlib.Core.Path.{◌≡◌}
use mathlib.Core.Bool.{Bool, true}
use native.Mathlib.Omega.{arith}
use fosdk.Common.Tests.{ltb, leb, ◌==◌, if◌then◌else◌}

pub data ℤ : Type 0 where
  pos : ℕ → ℤ
  negsuc : ℕ → ℤ

abbrev pub pos_part : ℤ → ℕ
pos_part (pos n) = n
pos_part (negsuc n) = 0

abbrev pub neg_part : ℤ → ℕ
neg_part (pos n) = 0
neg_part (negsuc n) = suc n

abbrev pub sub_ℕ : ℕ → ℕ → ℤ
sub_ℕ a b = if leb b a then pos (a - b) else negsuc (b - a - 1)

infix 50 ◌≤ℤ◌ ◌<ℤ◌
abbrev pub ◌≤ℤ◌ : ℤ → ℤ → Type 0
a ≤ℤ b = pos_part a + neg_part b ≤ pos_part b + neg_part a

abbrev pub ◌<ℤ◌ : ℤ → ℤ → Type 0
a <ℤ b = pos_part a + neg_part b < pos_part b + neg_part a

abbrev pub ltb_ℤ : ℤ → ℤ → Bool
ltb_ℤ a b = ltb (pos_part a + neg_part b) (pos_part b + neg_part a)

abbrev pub eqb_ℤ : ℤ → ℤ → Bool
eqb_ℤ a b = pos_part a + neg_part b == pos_part b + neg_part a

-- a + 1
unfoldable pub succ : ℤ → ℤ
succ a = sub_ℕ (pos_part a + 1) (neg_part a)

pub succ_parts : (a : ℤ) → pos_part (succ a) + neg_part a ≡ pos_part a + 1 + neg_part (succ a)
unfolding succ
succ_parts a = ground arith

pub eq_of_parts : (a b : ℤ) → pos_part a + neg_part b ≡ pos_part b + neg_part a → a ≡ b
eq_of_parts a b h = ground arith

pub eqb_ℤ→eq : (a b : ℤ) → eqb_ℤ a b ≡ true → a ≡ b
eqb_ℤ→eq a b h = ground arith

pub eqb_ℤ_refl : (a : ℤ) → eqb_ℤ a a ≡ true
eqb_ℤ_refl a = ground arith

pub lt-succ : (a : ℤ) → a <ℤ succ a
lt-succ a = omega (arith, succ_parts a)

-- An int64_t in an unsigned type of `m` values.
unfoldable pub unsigned : ℕ → ℤ → ℕ
unsigned m (pos n) = n % m
unsigned m (negsuc n) = m - 1 - n % m

-- a - 1
unfoldable pub pred : ℤ → ℤ
pred a = sub_ℕ (pos_part a) (neg_part a + 1)

pub pred_parts : (a : ℤ) → pos_part (pred a) + 1 + neg_part a ≡ pos_part a + neg_part (pred a)
unfolding pred
pred_parts a = ground arith
