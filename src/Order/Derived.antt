-- ===== src/Order/Derived.antt =====
-- `#[derive(PartialOrd, Ord)]`: an enumeration is ordered by its constructors' positions, a list
-- (`Vec<T>`) lexicographically.
use Prim.Native.Nat.{compare, Ordering}
use Prim.Native.Nat.Ordering.{lt, eq, gt}
use mongres.Prelude.{ℕ, ◌≡◌, refl, List, [], ◌∷◌, arith}
use mongres.Order.{IsTotalOrder, Ord}

-- The order that a position of each constructor induces.
module _ {K : Type 0} (rank : K → ℕ) (rank_injective : (a b : K) → rank a ≡ rank b → a ≡ b) where
  abbrev pub rank_cmp : K → K → Ordering
  rank_cmp a b = compare (rank a) (rank b)

  pub rank_cmp-IsTotalOrder : IsTotalOrder rank_cmp
  rank_cmp-IsTotalOrder = record {
    cmp_refl = λ a. ground arith;
    eq_of_cmp = λ a b h. rank_injective a b (ground arith);
    cmp_reverse = λ a b. ground arith;
    lt_trans = λ a b c h k. ground arith;
  }

-- The first answer that is not "equal".
abbrev pub then_cmp : Ordering → Ordering → Ordering
then_cmp lt _ = lt
then_cmp eq o = o
then_cmp gt _ = gt

module _ {ℓ} {K : Type ℓ} ⦃o : Ord K⦄ where
  unfoldable pub list_cmp : List K → List K → Ordering
  list_cmp [] [] = eq
  list_cmp [] (y ∷ ys) = lt
  list_cmp (x ∷ xs) [] = gt
  list_cmp (x ∷ xs) (y ∷ ys) = then_cmp (o.cmp x y) (list_cmp xs ys)

  list_cmp_refl : (xs : List K) → list_cmp xs xs ≡ eq
  unfolding list_cmp
  list_cmp_refl [] = refl
  list_cmp_refl (x ∷ xs) = rw o.cmp_refl (list_cmp_refl xs)

  list_eq_of_cmp : (xs ys : List K) → list_cmp xs ys ≡ eq → xs ≡ ys
  unfolding list_cmp
  list_eq_of_cmp [] [] h = refl
  list_eq_of_cmp [] (y ∷ ys) h = cc
  list_eq_of_cmp (x ∷ xs) [] h = cc
  list_eq_of_cmp (x ∷ xs) (y ∷ ys) h = ground (arith, o.eq_of_cmp x y, list_eq_of_cmp xs ys)

  list_cmp_reverse :
      (xs ys : List K) → list_cmp ys xs ≡ mongres.Order.reverse_order (list_cmp xs ys)
  unfolding list_cmp
  list_cmp_reverse [] [] = refl
  list_cmp_reverse [] (y ∷ ys) = refl
  list_cmp_reverse (x ∷ xs) [] = refl
  list_cmp_reverse (x ∷ xs) (y ∷ ys) = ground (arith, o.cmp_reverse x y, list_cmp_reverse xs ys)

  list_lt_trans :
      (xs ys zs : List K) → list_cmp xs ys ≡ lt → list_cmp ys zs ≡ lt → list_cmp xs zs ≡ lt
  unfolding list_cmp
  list_lt_trans [] [] zs h k = cc
  list_lt_trans [] (y ∷ ys) [] h k = cc
  list_lt_trans [] (y ∷ ys) (z ∷ zs) h k = refl
  list_lt_trans (x ∷ xs) [] zs h k = cc
  list_lt_trans (x ∷ xs) (y ∷ ys) [] h k = cc
  list_lt_trans (x ∷ xs) (y ∷ ys) (z ∷ zs) h k =
      grind (arith, o.eq_of_cmp x y, o.eq_of_cmp y z, o.lt_trans x y z, list_lt_trans xs ys zs)

  pub list_cmp-IsTotalOrder : IsTotalOrder list_cmp
  list_cmp-IsTotalOrder = record {
    cmp_refl = list_cmp_refl;
    eq_of_cmp = list_eq_of_cmp;
    cmp_reverse = list_cmp_reverse;
    lt_trans = list_lt_trans;
  }

  instance abbrev pub list_ord : Ord (List K)
  list_ord = record { cmp = list_cmp; laws = list_cmp-IsTotalOrder }
