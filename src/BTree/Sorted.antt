-- ===== src/BTree/Sorted.antt =====
-- The keys of a map and the elements of a set ascend strictly, so that iteration is deterministic
-- and a set is determined by what it contains.
use Prim.Native.Nat.Ordering.{lt}
use mongres.Prelude.{◌≡◌, refl, true, false, ◌||◌, List, [], ◌∷◌, arith, All, map}
use mongres.Order.{Ord, ◌=ₖ◌}
use mongres.BTree.{insert, add, contains, extend}

module _ {ℓ} {K : Type ℓ} ⦃o : Ord K⦄ where
  -- `k` stands before all of `xs`.
  abbrev pub Below : K → List K → Type 0
  Below k = All (λ j. o.cmp k j ≡ lt)

  abbrev pub IsSorted : List K → Type 0
  IsSorted [] = Unit
  IsSorted (x ∷ xs) = Below x xs × IsSorted xs

  Below-trans : (j k : K) (xs : List K) → o.cmp j k ≡ lt → Below k xs → Below j xs
  Below-trans j k [] h b = tt
  Below-trans j k (x ∷ xs) h (p, b) = (o.lt_trans j k x h p, Below-trans j k xs h b)

  Below-add : (j k : K) (s : List K) → o.cmp j k ≡ lt → Below j s → Below j (add k s)
  unfolding add
  Below-add j k [] h b = (h, tt)
  Below-add j k (i ∷ s) h (p, b) = ground (arith, Below-add j k s h b)

  pub add-IsSorted : (k : K) (s : List K) → IsSorted s → IsSorted (add k s)
  unfolding add
  add-IsSorted k [] h = (tt, tt)
  add-IsSorted k (i ∷ s) (b, h) =
      ground (arith, o.cmp_reverse k i, add-IsSorted k s h, Below-add i k s, Below-trans k i s)

  pub extend-IsSorted : (s ks : List K) → IsSorted s → IsSorted (extend s ks)
  unfolding extend
  extend-IsSorted s [] h = h
  extend-IsSorted s (k ∷ ks) h = extend-IsSorted (add k s) ks (add-IsSorted k s h)

  Below-keys-insert {κ} :
      {V : Type κ} (j k : K) (v : V) (m : List (K × V))
      → o.cmp j k ≡ lt
      → Below j (map (λ e. e.0) m)
      → Below j (map (λ e. e.0) (insert k v m))
  unfolding insert
  Below-keys-insert j k v [] h b = (h, tt)
  Below-keys-insert j k v ((i, w) ∷ m) h (p, b) = ground (arith, Below-keys-insert j k v m h b)

  pub keys-insert-IsSorted {κ} :
      {V : Type κ} (k : K) (v : V) (m : List (K × V))
      → IsSorted (map (λ e. e.0) m)
      → IsSorted (map (λ e. e.0) (insert k v m))
  unfolding insert
  keys-insert-IsSorted k v [] h = (tt, tt)
  keys-insert-IsSorted k v ((i, w) ∷ m) (b, h) = ground (
    arith,
    o.cmp_reverse k i,
    o.eq_of_cmp k i,
    keys-insert-IsSorted k v m h,
    Below-keys-insert i k v m,
    Below-trans k i (map (λ e. e.0) m),
  )

  -- An element that stands before a set is not in it.
  pub contains_of_Below : (k : K) (s : List K) → Below k s → contains k s ≡ false
  unfolding contains
  contains_of_Below k [] b = refl
  contains_of_Below k (i ∷ s) (p, b) = rw (p) (contains_of_Below k s b)

  -- Two sets that contain the same elements are equal.
  pub eq_of_contains :
      (s t : List K) → IsSorted s → IsSorted t → ((j : K) → contains j s ≡ contains j t) → s ≡ t
  eq_of_contains [] [] hs ht h = refl
  eq_of_contains [] (y ∷ t) hs ht h = unfold contains in (cc (h y, o.cmp_refl y))
  eq_of_contains (x ∷ s) [] hs ht h = unfold contains in (cc (h x, o.cmp_refl x))
  eq_of_contains (x ∷ s) (y ∷ t) (bs, hs) (bt, ht) h =
      ground (arith, eq_heads, eq_of_contains s t hs ht tails)
    where
      later : (a b : K) (r : List K) → Below b r → o.cmp a b ≡ lt → contains a (b ∷ r) ≡ false
      later a b r below before =
          unfold contains in (rw before (contains_of_Below a r (Below-trans a b r before below)))

      here : (a : K) (r : List K) → contains a (a ∷ r) ≡ true
      here a r = unfold contains in (rw (o.cmp_refl a))

      eq_heads : x ≡ y
      eq_heads = ground (
        arith,
        o.eq_of_cmp x y,
        o.cmp_reverse x y,
        later x y t bt,
        later y x s bs,
        here x s,
        here y t,
        h x,
        h y,
      )

      rest : (j : K) (r : List K) → contains j (x ∷ r) ≡ (j =ₖ x || contains j r)
      rest j r = unfold contains in refl

      tails : (j : K) → contains j s ≡ contains j t
      tails j = ground (
        arith,
        eq_heads,
        h j,
        rest j s,
        rest j t,
        o.eq_of_cmp j x,
        contains_of_Below x s bs,
        contains_of_Below y t bt,
      )
