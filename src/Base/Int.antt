-- ===== src/Base/Int.antt =====
-- Signed integers over the native numbers, and the wrap-around of Go's int64.
use Prim.Native.Nat.{ℕ, suc, ◌+◌, ◌-◌, ◌*◌, ◌/◌, ◌%◌, ◌≤◌}
use mathlib.Core.Path.{◌≡◌}
use mathlib.Core.Bool.{Bool, ◌&&◌}
use native.Mathlib.Omega.{arith}
use annoybots.Base.Tests.{ltb, leb, if◌then◌else◌}

-- `negsuc n` is -(n + 1).
pub data ℤ : Type 0 where
  pos : ℕ → ℤ
  negsuc : ℕ → ℤ

abbrev pub pos_part : ℤ → ℕ
pos_part (pos n) = n
pos_part (negsuc n) = 0

abbrev pub neg_part : ℤ → ℕ
neg_part (pos n) = 0
neg_part (negsuc n) = suc n

-- a - b, as an integer.
abbrev pub sub_ℕ : ℕ → ℕ → ℤ
sub_ℕ a b = if leb b a then pos (a - b) else negsuc (b - a - 1)

infixl 65 ◌+ℤ◌ ◌-ℤ◌
infix 50 ◌≤ℤ◌
unfoldable pub ◌+ℤ◌ : ℤ → ℤ → ℤ
a +ℤ b = sub_ℕ (pos_part a + pos_part b) (neg_part a + neg_part b)

unfoldable pub ◌-ℤ◌ : ℤ → ℤ → ℤ
a -ℤ b = sub_ℕ (pos_part a + neg_part b) (neg_part a + pos_part b)

abbrev pub neg : ℤ → ℤ
neg a = sub_ℕ (neg_part a) (pos_part a)

abbrev pub ◌≤ℤ◌ : ℤ → ℤ → Type 0
a ≤ℤ b = pos_part a + neg_part b ≤ pos_part b + neg_part a

abbrev pub ltb_ℤ : ℤ → ℤ → Bool
ltb_ℤ a b = ltb (pos_part a + neg_part b) (pos_part b + neg_part a)

abbrev pub leb_ℤ : ℤ → ℤ → Bool
leb_ℤ a b = leb (pos_part a + neg_part b) (pos_part b + neg_part a)

abbrev pub eq_ℤ : ℤ → ℤ → Bool
eq_ℤ a b = leb_ℤ a b && leb_ℤ b a

abbrev pub two63 : ℕ
two63 = 9223372036854775808

-- The residue of an integer modulo 2^64.
unfoldable pub residue64 : ℤ → ℕ
residue64 (pos n) = n % 18446744073709551616
residue64 (negsuc n) = 18446744073709551615 - n % 18446744073709551616

-- The int64 with the same residue modulo 2^64.
unfoldable pub wrap64 : ℤ → ℤ
unfolding residue64
wrap64 z = let r = residue64 z in if ltb r two63 then pos r else negsuc (18446744073709551615 - r)

-- The int64 values.
abbrev pub IsInt64 : ℤ → Type 0
IsInt64 z = (pos_part z + 1 ≤ two63) × (neg_part z ≤ two63)

pub wrap64-IsInt64 : (z : ℤ) → IsInt64 (wrap64 z)
unfolding wrap64
wrap64-IsInt64 (pos n) = ground arith
wrap64-IsInt64 (negsuc n) = ground arith

pub wrap64_of_IsInt64 : (z : ℤ) → IsInt64 z → wrap64 z ≡ z
unfolding wrap64
wrap64_of_IsInt64 (pos n) h = ground arith
wrap64_of_IsInt64 (negsuc n) h = ground arith

-- Sums and differences of int64 values, as Go computes them.
unfoldable pub add64 : ℤ → ℤ → ℤ
add64 a b = wrap64 (a +ℤ b)

unfoldable pub sub64 : ℤ → ℤ → ℤ
sub64 a b = wrap64 (a -ℤ b)

-- Products of int64 values.
unfoldable pub mul64 : ℤ → ℤ → ℤ
mul64 a b = wrap64 (
    sub_ℕ (pos_part a * pos_part b + neg_part a * neg_part b)
      (pos_part a * neg_part b + neg_part a * pos_part b))

-- Go's division by a positive int64, which rounds towards 0.
unfoldable pub quot : ℤ → ℕ → ℤ
quot (pos n) d = pos (n / d)
quot (negsuc n) d = neg (pos (suc n / d))

pub +ℤ_parts :
    (a b : ℤ)
    → pos_part (a +ℤ b) + neg_part a + neg_part b ≡ neg_part (a +ℤ b) + pos_part a + pos_part b
unfolding ◌+ℤ◌
+ℤ_parts a b = ground arith

pub -ℤ_parts :
    (a b : ℤ)
    → pos_part (a -ℤ b) + neg_part a + pos_part b ≡ neg_part (a -ℤ b) + pos_part a + neg_part b
unfolding ◌-ℤ◌
-ℤ_parts a b = ground arith

pub eq_of_parts : (a b : ℤ) → pos_part a + neg_part b ≡ pos_part b + neg_part a → a ≡ b
eq_of_parts a b h = ground arith

pub ruleset int_laws = (arith, +ℤ_parts, -ℤ_parts, eq_of_parts)

-- Only one part of an integer is not zero.
pub one_part : (a : ℤ) → pos_part a * neg_part a ≡ 0
one_part (pos n) = omega arith
one_part (negsuc n) = omega arith

pub add64_of_range : (a b : ℤ) → IsInt64 (a +ℤ b) → add64 a b ≡ a +ℤ b
unfolding add64
add64_of_range a b h = wrap64_of_IsInt64 (a +ℤ b) h

-- Numbers whose sums and differences are far inside int64.
abbrev pub IsSmall : ℤ → Type 0
IsSmall z = (pos_part z ≤ 4000000000000000000) × (neg_part z ≤ 4000000000000000000)

pub add_small : (a b : ℤ) → IsSmall a → IsSmall b → add64 a b ≡ a +ℤ b
unfolding add64 ◌+ℤ◌
add_small a b h k = wrap64_of_IsInt64 (a +ℤ b) (in_range a b h k)
  where
    in_range : (a b : ℤ) → IsSmall a → IsSmall b → IsInt64 (a +ℤ b)
    in_range (pos m) (pos n) h k = ground arith
    in_range (pos m) (negsuc n) h k = ground arith
    in_range (negsuc m) (pos n) h k = ground arith
    in_range (negsuc m) (negsuc n) h k = ground arith

pub sub_small : (a b : ℤ) → IsSmall a → IsSmall b → sub64 a b ≡ a -ℤ b
unfolding sub64 ◌-ℤ◌
sub_small a b h k = wrap64_of_IsInt64 (a -ℤ b) (in_range a b h k)
  where
    in_range : (a b : ℤ) → IsSmall a → IsSmall b → IsInt64 (a -ℤ b)
    in_range (pos m) (pos n) h k = ground arith
    in_range (pos m) (negsuc n) h k = ground arith
    in_range (negsuc m) (pos n) h k = ground arith
    in_range (negsuc m) (negsuc n) h k = ground arith
