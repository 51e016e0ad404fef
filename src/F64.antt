-- ===== src/F64.antt =====
-- `f64` by its bit pattern (IEEE 754 binary64): `f64::is_finite` and the comparisons, in which a NaN
-- is below nothing and above nothing. The program does no other arithmetic on the values that it
-- carries, except one scaling that `Policy/Audit.antt` takes as a parameter.
pub mod Order
use mongres.Prelude.{ℕ, ◌+◌, ◌/◌, ◌%◌, ◌^◌, Bool, true, false, not, ◌&&◌, ltb, ◌==◌, if◌then◌else◌}

pub record F64 : Type 0 where
  pub bits : ℕ

abbrev exponent : F64 → ℕ
exponent x = x.bits / 2 ^ 52 % 2 ^ 11

abbrev is_nan : F64 → Bool
is_nan x = (exponent x == 2047) && not (x.bits % 2 ^ 52 == 0)

unfoldable pub is_finite : F64 → Bool
is_finite x = not (exponent x == 2047)

-- The distance from zero, in the order of the magnitudes, on the positive and the negative side.
above_zero : F64 → ℕ
above_zero x = if ltb x.bits (2 ^ 63) then x.bits % 2 ^ 63 else 0

below_zero : F64 → ℕ
below_zero x = if ltb x.bits (2 ^ 63) then 0 else x.bits % 2 ^ 63

-- `x < y`
unfoldable pub less : F64 → F64 → Bool
unfolding above_zero below_zero
less x y =
    not (is_nan x)
    && (not (is_nan y) && ltb (above_zero x + below_zero y) (above_zero y + below_zero x))

abbrev pub zero_f64 : F64
zero_f64 = record { bits = 0 }

-- 1.0
abbrev pub one_f64 : F64
one_f64 = record { bits = 0x3ff0000000000000 }
