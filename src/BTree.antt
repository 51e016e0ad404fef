-- ===== src/BTree.antt =====
-- `std::collections::BTreeMap` and `BTreeSet`, which the crates use for every map and set. A map is
-- the list of its entries in the order of iteration, and a set the list of its elements; the
-- operations are the documented ones of the standard library.
pub mod Lookup
pub mod Sorted
use Prim.Native.Nat.{Ordering}
use mongres.Prelude.{Bool, ◌||◌, Option, none, some, List, [], ◌∷◌, if◌then◌else◌, map}
use mongres.Order.{Ord, ◌=ₖ◌}

module _ {ℓ} {K : Type ℓ} ⦃o : Ord K⦄ where
  -- `BTreeMap::insert`: a present key keeps its place and gets the new value.
  unfoldable pub insert {κ} : {V : Type κ} → K → V → List (K × V) → List (K × V)
  insert k v [] = (k, v) ∷ []
  insert k v ((j, w) ∷ m) = elim (o.cmp k j) [
    | Ordering.lt ↦ (k, v) ∷ (j, w) ∷ m
    | Ordering.eq ↦ (k, v) ∷ m
    | Ordering.gt ↦ (j, w) ∷ insert k v m
  ]

  -- `BTreeMap::get`
  unfoldable pub get {κ} : {V : Type κ} → K → List (K × V) → Option V
  get k [] = none
  get k ((j, w) ∷ m) = if k =ₖ j then some w else get k m

  -- `BTreeSet::insert`: a present element stays.
  unfoldable pub add : K → List K → List K
  add k [] = k ∷ []
  add k (j ∷ s) = elim (o.cmp k j) [
    | Ordering.lt ↦ k ∷ j ∷ s
    | Ordering.eq ↦ j ∷ s
    | Ordering.gt ↦ j ∷ add k s
  ]

  -- `BTreeSet::contains`
  unfoldable pub contains : K → List K → Bool
  contains k [] = mongres.Prelude.false
  contains k (j ∷ s) = k =ₖ j || contains k s

  -- `collect::<BTreeSet<_>>()`, `BTreeSet::extend` and `BTreeSet::from`
  unfoldable pub extend : List K → List K → List K
  unfolding add
  extend s [] = s
  extend s (k ∷ ks) = extend (add k s) ks
