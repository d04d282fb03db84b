-- ===== src/Prelude/Int.antt =====
-- Signed integers over the native numbers, under the library's names, with the Boolean orders and
-- the conversion from int64 to int32.
use Prim.Native.Nat.{ℕ, suc, ◌+◌, ◌-◌, ◌%◌, ◌^◌, ◌<◌}
use mathlib.Core.Path.{◌≡◌}
use mathlib.Core.Logic.{inl, inr}
use mathlib.Core.Bool.{Bool, true, false}
use native.Mathlib.Omega.{arith}
use based_backend.Prelude.Tests.{ltb, leb, if◌then◌else◌, Bool-cases}

-- `negsuc n` is -(n + 1).
pub data ℤ : Type 0 where
  pos : ℕ → ℤ
  negsuc : ℕ → ℤ

abbrev pos_part : ℤ → ℕ
pos_part (pos n) = n
pos_part (negsuc n) = 0

abbrev neg_part : ℤ → ℕ
neg_part (pos n) = 0
neg_part (negsuc n) = suc n

abbrev pub leb_ℤ : ℤ → ℤ → Bool
leb_ℤ a b = leb (pos_part a + neg_part b) (pos_part b + neg_part a)

abbrev pub is_negative : ℤ → Bool
is_negative (pos n) = false
is_negative (negsuc n) = true

abbrev pub InInt32 : ℤ → Type 0
InInt32 (pos n) = n < 2 ^ 31
InInt32 (negsuc n) = n < 2 ^ 31

abbrev pub InInt64 : ℤ → Type 0
InInt64 (pos n) = n < 2 ^ 63
InInt64 (negsuc n) = n < 2 ^ 63

-- `int32(n)` of a count: the low 32 bits, read as a signed number.
pub to_int32 : ℕ → ℤ
to_int32 n =
    if ltb (n % 2 ^ 32) (2 ^ 31) then pos (n % 2 ^ 32) else negsuc (2 ^ 32 - 1 - n % 2 ^ 32)

pub to_int32_small : (n : ℕ) → n < 2 ^ 31 → to_int32 n ≡ pos n
unfolding to_int32
to_int32_small n h = ground arith

-- An int64's 64 bits, in two's complement, and back; a number of more bits loses the high ones.
pub bits64 : ℤ → ℕ
bits64 (pos n) = n % 2 ^ 64
bits64 (negsuc n) = 2 ^ 64 - 1 - n % 2 ^ 64

unfoldable pub to_int64 : ℕ → ℤ
to_int64 n =
    if ltb (n % 2 ^ 64) (2 ^ 63) then pos (n % 2 ^ 64) else negsuc (2 ^ 64 - 1 - n % 2 ^ 64)

pub to_int64_small : (n : ℕ) → n < 2 ^ 63 → to_int64 n ≡ pos n
unfolding to_int64
to_int64_small n h = ground arith

pub to_int64-bits64 : (n : ℕ) → n < 2 ^ 63 → to_int64 (bits64 (negsuc n)) ≡ negsuc n
unfolding to_int64 bits64
to_int64-bits64 n h = ground arith

pub bits64_small : (n : ℕ) → n < 2 ^ 64 → bits64 (pos n) ≡ n
unfolding bits64
bits64_small n h = omega arith

pub to_int64_bound : (n : ℕ) → InInt64 (to_int64 n)
unfolding to_int64
to_int64_bound n = elim (Bool-cases (ltb (n % 2 ^ 64) (2 ^ 63))) [
  | inl e ↦ rw e ground arith
  | inr e ↦ rw e ground arith
]

pub to_int32_bound : (n : ℕ) → InInt32 (to_int32 n)
unfolding to_int32
to_int32_bound n = elim (Bool-cases (ltb (n % 2 ^ 32) (2 ^ 31))) [
  | inl e ↦ rw e ground arith
  | inr e ↦ rw e ground arith
]

-- `n + a <= b`
abbrev pub leb_sum : ℕ → ℤ → ℤ → Bool
leb_sum n a b = leb (n + pos_part a + neg_part b) (pos_part b + neg_part a)
