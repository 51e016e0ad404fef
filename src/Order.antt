-- ===== src/Order.antt =====
-- Rust's `Ord`: what `BTreeMap` and `BTreeSet` ask of their keys (`std::cmp::Ord`, derived or of
-- the standard library), with the laws of a total order. `cmp` answers with a native `Ordering`.
pub mod Derived
pub mod Text
pub mod Number
use Prim.Native.Nat.{Ordering}
use Prim.Native.Nat.Ordering.{lt, eq, gt}
use mongres.Prelude.{◌≡◌, Bool, true, false, ◌↔◌, arith}

abbrev pub reverse_order : Ordering → Ordering
reverse_order lt = gt
reverse_order eq = eq
reverse_order gt = lt

pub record IsTotalOrder {ℓ} {K : Type ℓ} (cmp : K → K → Ordering) : Type ℓ where
  -- The other way round, the answer is the reverse one.
  pub cmp_reverse : (x y : K) → cmp y x ≡ reverse_order (cmp x y)
  pub lt_trans : (x y z : K) → cmp x y ≡ lt → cmp y z ≡ lt → cmp x z ≡ lt
  pub cmp_refl : (x : K) → cmp x x ≡ eq
  pub eq_of_cmp : (x y : K) → cmp x y ≡ eq → x ≡ y

-- A key type with its comparison and the laws of it.
pub record Ord {ℓ} (K : Type ℓ) : Type ℓ where
  pub cmp : K → K → Ordering
  pub laws : IsTotalOrder cmp
  pub open laws use *

abbrev pub is_eq : Ordering → Bool
is_eq eq = true
is_eq _ = false

-- `Eq` as the order gives it.
infix 50 ◌=ₖ◌
abbrev pub ◌=ₖ◌ {ℓ} : {K : Type ℓ} ⦃o : Ord K⦄ → K → K → Bool
◌=ₖ◌ ⦃o⦄ a b = is_eq (o.cmp a b)

module _ {ℓ} {K : Type ℓ} ⦃o : Ord K⦄ where
  pub =ₖ_sound : (a b : K) → (a =ₖ b) ≡ true → a ≡ b
  =ₖ_sound a b h = ground (arith, o.eq_of_cmp a b)

  pub =ₖ_refl : (a : K) → (a =ₖ a) ≡ true
  =ₖ_refl a = ground (arith, o.cmp_refl a)

  pub =ₖ_sym : (a b : K) → (a =ₖ b) ≡ (b =ₖ a)
  =ₖ_sym a b = ground (arith, o.cmp_reverse a b)
