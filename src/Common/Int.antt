-- ===== src/Common/Int.antt =====
-- Go's signed `int` and `int64`: integers over the native numbers, with the library's names, and
-- the wrap-around of 64-bit arithmetic.
use Prim.Native.Nat.{ℕ, suc, ◌+◌, ◌-◌, ◌*◌, ◌%◌, ◌^◌, ◌≤◌, ◌<◌}
use mathlib.Core.Path.{◌≡◌}
use mathlib.Core.Bool.{Bool}
use native.Mathlib.Omega.{arith}
use imgli.Common.Tests.{ltb, leb, if◌then◌else◌}

-- `negsuc n` is -(n + 1).
pub data ℤ : Type 0 where
  pos : ℕ → ℤ
  negsuc : ℕ → ℤ

abbrev pub pos_part : ℤ → ℕ
pos_part (pos n) = n
pos_part (negsuc n) = 0

abbrev pub neg_part : ℤ → ℕ
neg_part (pos n) = 0
neg_part (negsuc n) = suc n

abbrev pub ltb_ℤ : ℤ → ℤ → Bool
ltb_ℤ a b = ltb (pos_part a + neg_part b) (pos_part b + neg_part a)

abbrev pub leb_ℤ : ℤ → ℤ → Bool
leb_ℤ a b = leb (pos_part a + neg_part b) (pos_part b + neg_part a)

infix 50 ◌≤ℤ◌ ◌<ℤ◌
abbrev pub ◌≤ℤ◌ : ℤ → ℤ → Type 0
a ≤ℤ b = pos_part a + neg_part b ≤ pos_part b + neg_part a

abbrev pub ◌<ℤ◌ : ℤ → ℤ → Type 0
a <ℤ b = pos_part a + neg_part b < pos_part b + neg_part a

-- The 64-bit pattern `m` read as a signed integer.
abbrev pub of_bits64 : ℕ → ℤ
of_bits64 m = if ltb m (2 ^ 63) then pos m else negsuc (2 ^ 64 - 1 - m)

-- The product of a signed integer and a small constant, as a Go `int` holds it.
unfoldable pub scale64 : ℤ → ℕ → ℤ
scale64 (pos n) k = of_bits64 ((n * k) % 2 ^ 64)
scale64 (negsuc n) k = of_bits64 ((2 ^ 64 - (suc n * k) % 2 ^ 64) % 2 ^ 64)

-- Inside the range of an `int64` the product is exact.
pub scale64_exact : (n k : ℕ) → n * k < 2 ^ 63 → scale64 (pos n) k ≡ pos (n * k)
unfolding scale64
scale64_exact n k h = ground arith
