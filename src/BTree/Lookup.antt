-- ===== src/BTree/Lookup.antt =====
-- What a map or a set holds after an operation.
use Prim.Native.Nat.{Ordering}
use mongres.Prelude.{
  ◌≡◌, refl, true, ◌||◌, some, List, [], ◌∷◌, if◌then◌else◌, arith, All, Bool-cases, inl, inr,
  subst, sym,
}
use mongres.Order.{Ord, ◌=ₖ◌, =ₖ_sound, =ₖ_refl}
use mongres.BTree.{insert, get, add, contains, extend}

module _ {ℓ} {K : Type ℓ} ⦃o : Ord K⦄ where
  pub get-insert {κ} :
      {V : Type κ} (j k : K) (v : V) (m : List (K × V))
      → get j (insert k v m) ≡ (if j =ₖ k then some v else get j m)
  unfolding get insert
  get-insert j k v [] = refl
  get-insert j k v ((i, w) ∷ m) = ground (
    arith,
    o.eq_of_cmp k i,
    o.eq_of_cmp j i,
    o.eq_of_cmp j k,
    o.cmp_refl i,
    o.cmp_refl k,
    get-insert j k v m,
  )

  pub contains-add : (j k : K) (s : List K) → contains j (add k s) ≡ (j =ₖ k || contains j s)
  unfolding contains add
  contains-add j k [] = refl
  contains-add j k (i ∷ s) = ground (
    arith,
    o.eq_of_cmp k i,
    o.eq_of_cmp j i,
    o.eq_of_cmp j k,
    o.cmp_refl i,
    o.cmp_refl k,
    contains-add j k s,
  )

  pub contains-extend :
      (j : K) (s ks : List K) → contains j (extend s ks) ≡ (contains j s || contains j ks)
  unfolding extend
  contains-extend j s [] = unfold contains in (ground arith)
  contains-extend j s (k ∷ ks) =
      ground (arith, contains-extend j (add k s) ks, contains-add j k s, contains-step)
    where
      contains-step : contains j (k ∷ ks) ≡ (j =ₖ k || contains j ks)
      contains-step = unfold contains in refl

  -- What holds of each element holds of what the set contains, and the other way round.
  pub All-contains {κ} :
      (P : K → Type κ) (s : List K) → All P s → (k : K) → contains k s ≡ true → P k
  unfolding contains
  All-contains P [] h k e = cc
  All-contains P (j ∷ s) (p, h) k e = elim (Bool-cases (k =ₖ j)) [
    | inl same ↦ subst P (sym (=ₖ_sound k j same)) p
    | inr other ↦ All-contains P s h k (ground arith)
  ]

  pub All-of_contains {κ} :
      (P : K → Type κ) (s : List K) → ((k : K) → contains k s ≡ true → P k) → All P s
  unfolding contains
  All-of_contains P [] h = tt
  All-of_contains P (j ∷ s) h =
      (h j (ground (arith, =ₖ_refl j)), All-of_contains P s (λ k e. h k (ground (arith, e))))

  -- What holds of the elements that are put into a set holds of its elements.
  pub All-add {κ} : (P : K → Type κ) (k : K) (s : List K) → P k → All P s → All P (add k s)
  unfolding add
  All-add P k [] p h = (p, tt)
  All-add P k (j ∷ s) p (q, h) = placed (All-add P k s p h) (o.cmp k j)
    where
      placed :
          All P (add k s)
          → (c : Ordering)
          → All P (elim c as (λ _. List K) [
            | Ordering.lt ↦ k ∷ j ∷ s
            | Ordering.eq ↦ j ∷ s
            | Ordering.gt ↦ j ∷ add k s
          ])
      placed later Ordering.lt = (p, (q, h))
      placed later Ordering.eq = (q, h)
      placed later Ordering.gt = (q, later)

  pub All-extend {κ} : (P : K → Type κ) (s ks : List K) → All P s → All P ks → All P (extend s ks)
  unfolding extend
  All-extend P s [] h g = h
  All-extend P s (k ∷ ks) h (p, g) = All-extend P (add k s) ks (All-add P k s p h) g
