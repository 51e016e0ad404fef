-- ===== src/Order/Number.antt =====
-- `Ord` of the unsigned integers.
use Prim.Native.Nat.{compare}
use mongres.Prelude.{ℕ, arith}
use mongres.Order.{Ord, IsTotalOrder}

pub nat_laws : IsTotalOrder compare
nat_laws = record {
  cmp_reverse = λ x y. ground arith;
  lt_trans = λ x y z h g. ground arith;
  cmp_refl = λ x. ground arith;
  eq_of_cmp = λ x y h. ground arith;
}

instance abbrev pub nat_ord : Ord ℕ
nat_ord = record { cmp = compare; laws = nat_laws }
