-- ===== src/Common/Results.antt =====
-- The iterator adaptors over results, and how a success of theirs is taken apart.
use mongres.Prelude.{
  ◌≡◌, refl, List, [], ◌∷◌, Option, none, some, All, arith, ◌⊎◌, inl, inr, length, ap, suc,
}
use mongres.Common.{Result, ok, err, ◌>>=◌, ◌>>◌}

module _ {E : Type 0} {A B : Type 0} where
  -- `iter().map(f).collect::<Result<Vec<_>, _>>()`
  unfoldable pub traverse : (A → Result E B) → List A → Result E (List B)
  traverse f [] = ok []
  traverse f (x ∷ xs) = do y ← f x; ys ← traverse f xs; ok (y ∷ ys)

  -- `iter().try_fold(init, f)`
  unfoldable pub try_fold : (B → A → Result E B) → B → List A → Result E B
  try_fold f acc [] = ok acc
  try_fold f acc (x ∷ xs) = do acc' ← f acc x; try_fold f acc' xs

  -- `option.map(f).transpose()`
  unfoldable pub transpose : (A → Result E B) → Option A → Result E (Option B)
  transpose f none = ok none
  transpose f (some a) = do b ← f a; ok (some b)

module _ {E : Type 0} {A : Type 0} where
  -- `Option::ok_or_else`
  abbrev pub ok_or : Option A → E → Result E A
  ok_or none e = err e
  ok_or (some a) e = ok a

  -- `iter().try_for_each(f)`
  unfoldable pub try_for_each : (A → Result E (Unit {0})) → List A → Result E (Unit {0})
  try_for_each f [] = ok tt
  try_for_each f (x ∷ xs) = do f x; try_for_each f xs

  pub try_for_each-All :
      (f : A → Result E (Unit {0})) (xs : List A)
      → try_for_each f xs ≡ ok tt
      → All (λ x. f x ≡ ok tt) xs
  unfolding try_for_each
  try_for_each-All f [] h = tt
  try_for_each-All f (x ∷ xs) h = ground (arith, try_for_each-All f xs)

  pub All-try_for_each :
      (f : A → Result E (Unit {0})) (xs : List A)
      → All (λ x. f x ≡ ok tt) xs
      → try_for_each f xs ≡ ok tt
  unfolding try_for_each
  All-try_for_each f [] h = refl
  All-try_for_each f (x ∷ xs) (here, h) = rw (here, All-try_for_each f xs h)

pub ok_injective {ℓ} :
    {E : Type 0} {A : Type ℓ} {a b : A} → ◌≡◌ {A = Result E A} (ok a) (ok b) → a ≡ b
ok_injective e = cc

-- A successful chain, taken apart.
pub >>=-eq-ok {ℓ κ} :
    {E : Type 0} {A : Type ℓ} {B : Type κ} (first : Result E A) (next : A → Result E B) {out : B}
    → (first >>= next) ≡ ok out
    → (mid : A) × (first ≡ ok mid) × (next mid ≡ ok out)
>>=-eq-ok (ok mid) next e = (mid, refl, e)
>>=-eq-ok (err failure) next e = cc

module _ {E : Type 0} {A B : Type 0} (f : A → Result E B) where
  -- What every success of `f` has, the results of `traverse` have.
  pub traverse-All :
      (P : B → Type 0)
      → ((x : A) (y : B) → f x ≡ ok y → P y)
      → (xs : List A) (ys : List B) → traverse f xs ≡ ok ys
      → All P ys
  unfolding traverse
  traverse-All P keep [] ys e = ground arith
  traverse-All P keep (x ∷ xs) ys e =
      let (y, here, e') = >>=-eq-ok (f x) _ e in
      let (zs, there, e'') = >>=-eq-ok (traverse f xs) _ e' in
      let same : y ∷ zs ≡ ys = cc in rw (← same) (keep x y here, traverse-All P keep xs zs there)

  -- If `f` succeeds on each element, `traverse` does.
  pub traverse_total :
      (xs : List A) → All (λ x. (y : B) × (f x ≡ ok y)) xs → (ys : List B) × (traverse f xs ≡ ok ys)
  unfolding traverse
  traverse_total [] h = ([], refl)
  traverse_total (x ∷ xs) ((y, here), h) =
      let (ys, there) = traverse_total xs h in (y ∷ ys, rw (here, there))

  pub length-traverse : (xs : List A) (ys : List B) → traverse f xs ≡ ok ys → length ys ≡ length xs
  unfolding traverse
  length-traverse [] ys e = ground arith
  length-traverse (x ∷ xs) ys e =
      let (y, here, e') = >>=-eq-ok (f x) _ e in
      let (zs, there, e'') = >>=-eq-ok (traverse f xs) _ e' in
      let same : y ∷ zs ≡ ys = cc in rw (← same) (ap suc (length-traverse xs zs there))

pub Result-cases {ℓ} :
    {E : Type 0} {A : Type ℓ} (r : Result E A) → ((a : A) × (r ≡ ok a)) ⊎ ((e : E) × (r ≡ err e))
Result-cases (ok a) = inl (a, refl)
Result-cases (err e) = inr (e, refl)
