-- ===== src/Common/Int.antt =====
-- Signed integers over the native numbers, with Go's truncated division and 64-bit wrap-around.
use uber_clone.Common.Tests.{ltb, leb, if◌then◌else◌}
use Prim.Native.Nat.{ℕ, suc, ◌+◌, ◌-◌, ◌*◌, ◌/◌, ◌%◌, ◌≤◌}
use mathlib.Core.Path.{◌≡◌, refl}
use mathlib.Core.Bool.{Bool, false}
use native.Mathlib.Omega.{arith}

-- `negsuc n` is -(n + 1).
pub data ℤ : Type 0 where
  pos : ℕ → ℤ
  negsuc : ℕ → ℤ

abbrev pub pos_part : ℤ → ℕ
pos_part (pos n) = n
pos_part (negsuc n) = 0

abbrev pub neg_part : ℤ → ℕ
neg_part (pos n) = 0
neg_part (negsuc n) = suc n

-- a - b, as an integer.
abbrev pub sub_ℕ : ℕ → ℕ → ℤ
sub_ℕ a b = if leb b a then pos (a - b) else negsuc (b - a - 1)

infixl 65 ◌+ℤ◌ ◌-ℤ◌
infixl 70 ◌*ℤ◌
infix 50 ◌≤ℤ◌
unfoldable pub ◌+ℤ◌ : ℤ → ℤ → ℤ
a +ℤ b = sub_ℕ (pos_part a + pos_part b) (neg_part a + neg_part b)

unfoldable pub ◌-ℤ◌ : ℤ → ℤ → ℤ
a -ℤ b = sub_ℕ (pos_part a + neg_part b) (neg_part a + pos_part b)

unfoldable pub ◌*ℤ◌ : ℤ → ℤ → ℤ
a *ℤ b =
    sub_ℕ (pos_part a * pos_part b + neg_part a * neg_part b)
      (pos_part a * neg_part b + neg_part a * pos_part b)

abbrev pub ◌≤ℤ◌ : ℤ → ℤ → Type 0
a ≤ℤ b = pos_part a + neg_part b ≤ pos_part b + neg_part a

abbrev pub ltb_ℤ : ℤ → ℤ → Bool
ltb_ℤ a b = ltb (pos_part a + neg_part b) (pos_part b + neg_part a)

abbrev pub leb_ℤ : ℤ → ℤ → Bool
leb_ℤ a b = leb (pos_part a + neg_part b) (pos_part b + neg_part a)

-- Go's `/` and `%`, and `QuoRem` of math/big, cut towards zero. (A divisor of zero panics there; the
-- divisors of the program are positive.)
unfoldable pub quot : ℤ → ℤ → ℤ
quot (pos n) (pos d) = pos (n / d)
quot (negsuc n) (pos d) = sub_ℕ 0 (suc n / d)
quot (pos n) (negsuc d) = sub_ℕ 0 (n / suc d)
quot (negsuc n) (negsuc d) = pos (suc n / suc d)

unfoldable pub rem : ℤ → ℤ → ℤ
rem (pos n) (pos d) = pos (n % d)
rem (negsuc n) (pos d) = sub_ℕ 0 (suc n % d)
rem (pos n) (negsuc d) = pos (n % suc d)
rem (negsuc n) (negsuc d) = sub_ℕ 0 (suc n % suc d)

-- int64: the value that is left of an integer in 64 bits of two's complement.
abbrev pub u64 : ℕ → ℕ
u64 n = n % 18446744073709551616

abbrev pub of_bits : ℕ → ℤ
of_bits n = if ltb n 9223372036854775808 then pos n else sub_ℕ n 18446744073709551616

unfoldable pub int64 : ℤ → ℤ
int64 (pos n) = of_bits (u64 n)
int64 (negsuc n) = of_bits (18446744073709551615 - u64 n)

pub int64-pos : (n : ℕ) → suc n ≤ 9223372036854775808 → int64 (pos n) ≡ pos n
unfolding int64
int64-pos n h = ground arith

pub +ℤ-pos : (a b : ℕ) → pos a +ℤ pos b ≡ pos (a + b)
unfolding ◌+ℤ◌
+ℤ-pos a b = ground arith

pub *ℤ-pos : (a b : ℕ) → pos a *ℤ pos b ≡ pos (a * b)
unfolding ◌*ℤ◌
*ℤ-pos a b = ground arith

int64_wraps : int64 (pos 9223372036854775808) ≡ negsuc 9223372036854775807
unfolding int64
int64_wraps = refl

int64_minus_one : int64 (negsuc 0) ≡ negsuc 0
unfolding int64
int64_minus_one = refl

pub quot-pos : (n d : ℕ) → quot (pos n) (pos d) ≡ pos (n / d)
unfolding quot
quot-pos n d = refl

pub rem-pos : (n d : ℕ) → rem (pos n) (pos d) ≡ pos (n % d)
unfolding rem
rem-pos n d = refl

-- An integer that is not negative is a natural number.
pub eq-pos : (a : ℤ) → ltb_ℤ a (pos 0) ≡ false → a ≡ pos (pos_part a)
eq-pos a h = ground arith

pub ruleset pos_laws = (+ℤ-pos, *ℤ-pos, quot-pos, rem-pos)
