-- ===== src/Prelude/Int.antt =====
-- Signed integers over the native numbers, and the wrap-around of Go's int32.
use Prim.Native.Nat.{ℕ, zero, suc, ◌+◌, ◌-◌, ◌*◌, ◌%◌, ◌≤◌, ◌<◌}
use mathlib.Core.Path.{◌≡◌}
use mathlib.Core.Bool.{Bool}
use native.Mathlib.Omega.{arith}
use korder.Prelude.Tests.{ltb, leb, ◌==◌, if◌then◌else◌}

-- `negsuc n` is -(n + 1).
pub data ℤ : Type 0 where
  pos : ℕ → ℤ
  negsuc : ℕ → ℤ

abbrev pub pos_part : ℤ → ℕ
pos_part (pos n) = n
pos_part (negsuc n) = 0

abbrev pub neg_part : ℤ → ℕ
neg_part (pos n) = 0
neg_part (negsuc n) = suc n

abbrev pub sub_ℕ : ℕ → ℕ → ℤ
sub_ℕ a b = if leb b a then pos (a - b) else negsuc (b - a - 1)

infixl 65 ◌+ℤ◌ ◌-ℤ◌
infixl 70 ◌*ℤ◌
infix 50 ◌≤ℤ◌ ◌<ℤ◌
unfoldable pub ◌+ℤ◌ : ℤ → ℤ → ℤ
a +ℤ b = sub_ℕ (pos_part a + pos_part b) (neg_part a + neg_part b)

unfoldable pub ◌-ℤ◌ : ℤ → ℤ → ℤ
a -ℤ b = sub_ℕ (pos_part a + neg_part b) (neg_part a + pos_part b)

abbrev pub ◌≤ℤ◌ : ℤ → ℤ → Type 0
a ≤ℤ b = pos_part a + neg_part b ≤ pos_part b + neg_part a

abbrev pub ◌<ℤ◌ : ℤ → ℤ → Type 0
a <ℤ b = pos_part a + neg_part b < pos_part b + neg_part a

abbrev pub ltb_ℤ : ℤ → ℤ → Bool
ltb_ℤ a b = ltb (pos_part a + neg_part b) (pos_part b + neg_part a)

abbrev pub leb_ℤ : ℤ → ℤ → Bool
leb_ℤ a b = leb (pos_part a + neg_part b) (pos_part b + neg_part a)

abbrev pub eqb_ℤ : ℤ → ℤ → Bool
eqb_ℤ a b = pos_part a + neg_part b == pos_part b + neg_part a

pub +ℤ_parts :
    (a b : ℤ)
    → pos_part (a +ℤ b) + neg_part a + neg_part b ≡ neg_part (a +ℤ b) + pos_part a + pos_part b
unfolding ◌+ℤ◌
+ℤ_parts a b = ground arith

pub -ℤ_parts :
    (a b : ℤ)
    → pos_part (a -ℤ b) + neg_part a + pos_part b ≡ neg_part (a -ℤ b) + pos_part a + neg_part b
unfolding ◌-ℤ◌
-ℤ_parts a b = ground arith

-- int32(z): the representative of z modulo 2 ^ 32 between -2 ^ 31 and 2 ^ 31 - 1.
unfoldable pub wrap32 : ℤ → ℤ
wrap32 (pos n) =
    let m = n % 4294967296 in if ltb m 2147483648 then pos m else negsuc (4294967295 - m)
wrap32 (negsuc n) =
    let m = n % 4294967296 in if ltb m 2147483648 then negsuc m else pos (4294967295 - m)

pub wrap32-pos : (n : ℕ) → n < 2147483648 → wrap32 (pos n) ≡ pos n
unfolding wrap32
wrap32-pos n h = ground arith

-- A product with a natural number.
unfoldable pub scale : ℕ → ℤ → ℤ
scale k (pos n) = pos (k * n)
scale k (negsuc n) = sub_ℕ 0 (k * suc n)

unfoldable pub ◌*ℤ◌ : ℤ → ℤ → ℤ
unfolding scale
a *ℤ pos n = scale n a
a *ℤ negsuc n = sub_ℕ (suc n * neg_part a) (suc n * pos_part a)

-- int64(z), modulo 2 ^ 64.
pub wrap64 : ℤ → ℤ
wrap64 (pos n) =
    let m = n % 18446744073709551616 in
    if ltb m 9223372036854775808 then pos m else negsuc (18446744073709551615 - m)
wrap64 (negsuc n) =
    let m = n % 18446744073709551616 in
    if ltb m 9223372036854775808 then negsuc m else pos (18446744073709551615 - m)

mul_le : (n a b : ℕ) → a ≤ b → n * a ≤ n * b
mul_le zero a b h = omega arith
mul_le (suc n) a b h = omega (arith, mul_le n a b h)

pub scale_le : (n : ℕ) (a b : ℤ) → a ≤ℤ b → scale n a ≤ℤ scale n b
unfolding scale
scale_le n (pos a) (pos b) h = ground (arith, mul_le n a b (omega arith))
scale_le n (pos a) (negsuc b) h = absurd (omega arith)
scale_le n (negsuc a) (pos b) h = ground arith
scale_le n (negsuc a) (negsuc b) h = ground (arith, mul_le n (suc b) (suc a) (omega arith))

mul_lt : (n a b : ℕ) → 0 < n → a < b → n * a < n * b
mul_lt zero a b positive h = absurd (omega arith)
mul_lt (suc n) a b positive h = omega (arith, mul_le n a b (omega arith))

pub scale_lt : (n : ℕ) (a b : ℤ) → 0 < n → a <ℤ b → scale n a <ℤ scale n b
unfolding scale
scale_lt n (pos a) (pos b) positive h = ground (arith, mul_lt n a b positive (omega arith))
scale_lt n (pos a) (negsuc b) positive h = absurd (omega arith)
scale_lt n (negsuc a) (pos b) positive h = ground (arith, mul_lt n 0 (suc a) positive (omega arith))
scale_lt n (negsuc a) (negsuc b) positive h =
    ground (arith, mul_lt n (suc b) (suc a) positive (omega arith))
