-- ===== src/Common/Float.antt =====
-- float64 as far as the program reads it: every finite value is a whole multiple of 2 ^ -1074, so
-- comparisons are exact.
use Prim.Native.Nat.{ℕ, ◌*◌, ◌^◌}
use mathlib.Core.Bool.{Bool, true, false, not, ◌&&◌}
use uber_clone.Common.Int.{ℤ, pos, ◌-ℤ◌, leb_ℤ}

pub data Float : Type 0 where
  nan pos_inf neg_inf : Float
  finite : ℤ → Float

-- A whole number of degrees.
unfoldable pub degrees : ℕ → Float
degrees n = finite (pos (n * 2 ^ 1074))

unfoldable pub minus_degrees : ℕ → Float
minus_degrees n = finite (pos 0 -ℤ pos (n * 2 ^ 1074))

-- `a <= b`, which is false whenever a side is NaN.
unfoldable pub leb_float : Float → Float → Bool
leb_float nan b = false
leb_float a nan = false
leb_float neg_inf b = true
leb_float pos_inf pos_inf = true
leb_float pos_inf b = false
leb_float (finite x) neg_inf = false
leb_float (finite x) pos_inf = true
leb_float (finite x) (finite y) = leb_ℤ x y

-- `a < b` and `a == b`
abbrev pub less_float : Float → Float → Bool
less_float a b = leb_float a b && not (leb_float b a)

abbrev pub equal_float : Float → Float → Bool
equal_float a b = leb_float a b && leb_float b a
