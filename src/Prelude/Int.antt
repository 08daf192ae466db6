-- ===== src/Prelude/Int.antt =====
-- Signed integers over the native numbers, and the cast `as i32`.
use Prim.Native.Nat.{ℕ, suc, ◌+◌, ◌-◌, ◌%◌, ◌^◌, ◌≤◌, ◌<◌}
use mathlib.Core.Path.{◌≡◌}
use native.Mathlib.Omega.{arith}
use mathlib.Core.Bool.{Bool, true, false}
use rudr.Prelude.Tests.{ltb, leb, nat_eq, if◌then◌else◌}

-- `negsuc n` is -(n + 1).
pub data ℤ : Type 0 where
  pos : ℕ → ℤ
  negsuc : ℕ → ℤ

abbrev pub pos_part : ℤ → ℕ
pos_part (pos n) = n
pos_part (negsuc n) = 0

abbrev pub neg_part : ℤ → ℕ
neg_part (pos n) = 0
neg_part (negsuc n) = suc n

-- The 32-bit two's complement integer of a bit pattern.
abbrev pub of_bits : ℕ → ℤ
of_bits b = if ltb b (2 ^ 31) then pos b else negsuc (2 ^ 32 - b - 1)

-- `x as i32` of an `i64`: the low 32 bits, read as a two's complement number.
unfoldable pub as_i32 : ℤ → ℤ
as_i32 (pos n) = of_bits (n % 2 ^ 32)
as_i32 (negsuc n) = of_bits (2 ^ 32 - 1 - n % 2 ^ 32)

-- Within the range of `i32` the cast changes nothing.
pub as_i32_of_small : (x : ℤ) → pos_part x < 2 ^ 31 → neg_part x ≤ 2 ^ 31 → as_i32 x ≡ x
unfolding as_i32
as_i32_of_small (pos n) h k = ground arith
as_i32_of_small (negsuc n) h k = ground arith

-- `a - b` of two numbers, as an integer.
abbrev pub sub_ℕ : ℕ → ℕ → ℤ
sub_ℕ a b = if ltb a b then negsuc (b - a - 1) else pos (a - b)

-- `a + b` of two `i32`s, which wraps.
unfoldable pub add_i32 : ℤ → ℤ → ℤ
unfolding as_i32
add_i32 a b = as_i32 (sub_ℕ (pos_part a + pos_part b) (neg_part a + neg_part b))

-- `x > 0` and `x == y`.
abbrev pub is_positive : ℤ → Bool
is_positive (pos n) = ltb 0 n
is_positive (negsuc n) = false

abbrev pub int_eq : ℤ → ℤ → Bool
int_eq (pos a) (pos b) = nat_eq a b
int_eq (negsuc a) (negsuc b) = nat_eq a b
int_eq _ _ = false

abbrev pub int_leb : ℤ → ℤ → Bool
int_leb (pos a) (pos b) = leb a b
int_leb (negsuc a) (negsuc b) = leb b a
int_leb (pos a) (negsuc b) = false
int_leb (negsuc a) (pos b) = true
