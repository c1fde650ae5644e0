-- ===== src/Base/Int.antt =====
-- Signed integers over the native numbers, and the wrap-around of Go's 64-bit `int` and
-- `time.Duration`.
use Prim.Native.Nat.{ℕ, suc, ◌+◌, ◌-◌, ◌*◌, ◌%◌, ◌^◌, ◌≤◌, ◌<◌}
use mathlib.Core.Path.{◌≡◌}
use mathlib.Core.Bool.{Bool}
use native.Mathlib.Omega.{arith}
use llama_stack.Base.Tests.{ltb, leb, if◌then◌else◌}

-- `negsuc n` is -(n + 1).
pub data ℤ : Type 0 where
  pos : ℕ → ℤ
  negsuc : ℕ → ℤ

abbrev pub pos_part : ℤ → ℕ
pos_part (pos n) = n
pos_part (negsuc n) = 0

abbrev pub neg_part : ℤ → ℕ
neg_part (pos n) = 0
neg_part (negsuc n) = suc n

infix 50 ◌≤ℤ◌ ◌<ℤ◌
abbrev pub ◌≤ℤ◌ : ℤ → ℤ → Type 0
a ≤ℤ b = pos_part a + neg_part b ≤ pos_part b + neg_part a

abbrev pub ◌<ℤ◌ : ℤ → ℤ → Type 0
a <ℤ b = pos_part a + neg_part b < pos_part b + neg_part a

abbrev pub ltb_ℤ : ℤ → ℤ → Bool
ltb_ℤ a b = ltb (pos_part a + neg_part b) (pos_part b + neg_part a)

abbrev pub leb_ℤ : ℤ → ℤ → Bool
leb_ℤ a b = leb (pos_part a + neg_part b) (pos_part b + neg_part a)

abbrev pub modulus : ℕ
modulus = 2 ^ 64

abbrev pub half_range : ℕ
half_range = 2 ^ 63

-- The 64-bit pattern of an integer, and the integer that a pattern stands for.
unfoldable pub to_bits : ℤ → ℕ
to_bits (pos n) = n % modulus
to_bits (negsuc n) = modulus - 1 - n % modulus

unfoldable pub of_bits : ℕ → ℤ
of_bits r = if ltb r half_range then pos r else negsuc (modulus - 1 - r)

-- `x * k` on int64.
unfoldable pub scale : ℤ → ℕ → ℤ
scale (pos n) k = of_bits (to_bits (pos (n * k)))
scale (negsuc n) k = of_bits (to_bits (negsuc (suc n * k - 1)))

-- Inside the range nothing wraps.
pub of_bits-to_bits_pos : (n : ℕ) → n < half_range → of_bits (to_bits (pos n)) ≡ pos n
unfolding of_bits to_bits
of_bits-to_bits_pos n h = ground arith

pub of_bits-to_bits_negsuc : (n : ℕ) → n < half_range → of_bits (to_bits (negsuc n)) ≡ negsuc n
unfolding of_bits to_bits
of_bits-to_bits_negsuc n h = ground arith
