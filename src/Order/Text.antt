-- ===== src/Order/Text.antt =====
-- The order of `String` and `&str`: by code points, which is the order of the UTF-8 bytes. The
-- native `compare` is Rust's `cmp`.
use Prim.Native.Nat.Ordering.{lt}
use Prim.Native.String.{String, [], ◌∷◌, compare}
use Prim.Native.String.compare as text_compare
use text.Mathlib.TextEquality.{path_by_compare}
use text.Mathlib.TextPositions.{compare_refl}
use mongres.Prelude.{◌≡◌, arith}
use mongres.Order.{IsTotalOrder, Ord, reverse_order}

-- `cons-cons` and its like are the clauses of the native `compare`.
text_reverse : (s t : String) → compare t s ≡ reverse_order (compare s t)
text_reverse [] [] = rw text_compare.nil-nil
text_reverse [] (d ∷ t) = rw (text_compare.nil-cons, text_compare.cons-nil)
text_reverse (c ∷ s) [] = rw (text_compare.nil-cons, text_compare.cons-nil)
text_reverse (c ∷ s) (d ∷ t) =
    ground (arith, text_reverse s t, text_compare.cons-cons c d s t, text_compare.cons-cons d c t s)

text_lt_trans : (r s t : String) → compare r s ≡ lt → compare s t ≡ lt → compare r t ≡ lt
text_lt_trans [] [] t h k = cc
text_lt_trans [] (d ∷ s) [] h k = cc (text_compare.cons-nil d s)
text_lt_trans [] (d ∷ s) (e ∷ t) h k = text_compare.nil-cons e t
text_lt_trans (c ∷ r) [] t h k = cc (text_compare.cons-nil c r)
text_lt_trans (c ∷ r) (d ∷ s) [] h k = cc (text_compare.cons-nil d s)
text_lt_trans (c ∷ r) (d ∷ s) (e ∷ t) h k = ground (
  arith,
  text_lt_trans r s t,
  text_compare.cons-cons c d r s,
  text_compare.cons-cons d e s t,
  text_compare.cons-cons c e r t,
)

pub text_cmp-IsTotalOrder : IsTotalOrder compare
text_cmp-IsTotalOrder = record {
  cmp_refl = compare_refl;
  eq_of_cmp = path_by_compare;
  cmp_reverse = text_reverse;
  lt_trans = text_lt_trans;
}

instance abbrev pub text_ord : Ord String
text_ord = record { cmp = compare; laws = text_cmp-IsTotalOrder }
