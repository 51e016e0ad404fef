-- ===== src/F64/Order.antt =====
-- `<` on `f64` among numbers that are not NaN.
use mongres.Prelude.{◌+◌, Bool, true, false, ◌≡◌, refl, arith, ltb, not, ◌&&◌, ◌==◌}
use mongres.F64.{F64, is_finite, less, above_zero, below_zero, is_nan, exponent}

nan_of_finite : (b c : Bool) → not b ≡ true → (b && c) ≡ false
nan_of_finite true c h = cc
nan_of_finite false c h = refl

both_numbers : (a b c : Bool) → a ≡ false → b ≡ false → (not a && (not b && c)) ≡ c
both_numbers true b c h k = cc
both_numbers false true c h k = cc
both_numbers false false c h k = refl

is_nan_of_finite : (x : F64) → is_finite x ≡ true → is_nan x ≡ false
unfolding is_finite
is_nan_of_finite x h = nan_of_finite (exponent x == 2047) _ h

less-eq-ltb :
    (x y : F64)
    → is_finite x ≡ true
    → is_finite y ≡ true
    → less x y ≡ ltb (above_zero x + below_zero y) (above_zero y + below_zero x)
unfolding less
less-eq-ltb x y fx fy =
    both_numbers (is_nan x) (is_nan y) _ (is_nan_of_finite x fx) (is_nan_of_finite y fy)

-- Of finite numbers, one that is not below a number above `z` is above `z`.
pub less_trans_true :
    (x y z : F64)
    → is_finite x ≡ true
    → is_finite y ≡ true
    → is_finite z ≡ true
    → less x y ≡ false
    → less z y ≡ true
    → less z x ≡ true
less_trans_true x y z fx fy fz h k =
    ground (arith, less-eq-ltb x y fx fy, less-eq-ltb z y fz fy, less-eq-ltb z x fz fx)

pub less_asymmetric :
    (x y : F64) → is_finite x ≡ true → is_finite y ≡ true → less x y ≡ true → less y x ≡ false
less_asymmetric x y fx fy h = ground (arith, less-eq-ltb x y fx fy, less-eq-ltb y x fy fx)
