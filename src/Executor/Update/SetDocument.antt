-- ===== src/Executor/Update/SetDocument.antt =====
-- What the checks of `update_document` exclude.
use mongres.Prelude.{
  ℕ, suc, String, Bool, true, false, ◌&&◌, List, [], ◌∷◌, ◌++◌, length, min, take, any, ◌≡◌, refl,
  ap, ◌∙◌, subst, arith, ◌↔◌, ◌⊎◌, ◌≢◌, inl, inr, All,
}
use mongres.Bson.{BsonApi}
use mongres.Common.{ok}
use mongres.Common.Results.{>>=-eq-ok}
use mongres.Order.{◌=ₖ◌, =ₖ_sound, =ₖ_refl}
use mongres.Order.Derived.{list_ord, list_cmp}
use mongres.Order.Text.{text_ord}
use mongres.Text.{is_empty, starts_with_char}
use mongres.Schema.{FieldPath, is_literal_dotted_key, segments}
use mongres.Plan.{AssignmentPlan}
use mongres.Binding.Closed.{IsBound}
use mongres.Executor.{mongo_field_name, bson_value}
use mongres.Executor.Filters.{mongo_field_name-ok, bson_value-IsBound}
use mongres.Executor.Update.{paths_overlap, validate_update_path, set_assignments, update_document}

-- The first path begins the second one.
abbrev pub Begins : List String → List String → Type 0
Begins p q = (rest : List String) × (p ++ rest ≡ q)

begins_either : List String → List String → Bool
begins_either [] q = true
begins_either (s ∷ p) [] = true
begins_either (s ∷ p) (t ∷ q) = s =ₖ t && begins_either p q

=ₖ-cons : (s t : String) (p q : List String) → ((s ∷ p) =ₖ (t ∷ q)) ≡ (s =ₖ t && p =ₖ q)
unfolding list_cmp
=ₖ-cons s t p q = ground arith

taken_overlap : ℕ → List String → List String → Bool
taken_overlap n p q = take n p =ₖ take n q

zero_min : (n : ℕ) → 0 ≡ min 0 n
zero_min n = omega arith

min_zero : (n : ℕ) → 0 ≡ min (suc n) 0
min_zero n = omega arith

suc-min : (m n : ℕ) → suc (min m n) ≡ min (suc m) (suc n)
suc-min m n = omega arith

taken_overlap_lem :
    (p q : List String) → taken_overlap (min (length p) (length q)) p q ≡ begins_either p q
unfolding taken_overlap begins_either list_cmp
taken_overlap_lem [] q = subst (λ n. taken_overlap n [] q ≡ true) (zero_min (length q)) refl
taken_overlap_lem (s ∷ p) [] =
    subst (λ n. taken_overlap n (s ∷ p) [] ≡ true) (min_zero (length p)) refl
taken_overlap_lem (s ∷ p) (t ∷ q) =
    subst (λ n. taken_overlap n (s ∷ p) (t ∷ q) ≡ (s =ₖ t && begins_either p q))
      (suc-min (length p) (length q))
      (=ₖ-cons s t (take (min (length p) (length q)) p) (take (min (length p) (length q)) q)
        ∙ ap (λ b. s =ₖ t && b) (taken_overlap_lem p q))

paths_overlap_lem : (p q : List String) → paths_overlap p q ≡ begins_either p q
unfolding paths_overlap taken_overlap
paths_overlap_lem p q = taken_overlap_lem p q

head_eq : {s t : String} {p q : List String} → s ∷ p ≡ t ∷ q → s ≡ t
head_eq e = cc

tail_eq : {s t : String} {p q : List String} → s ∷ p ≡ t ∷ q → p ≡ q
tail_eq e = cc

Begins-of_begins_either : (p q : List String) → begins_either p q ≡ true → Begins p q ⊎ Begins q p
unfolding begins_either
Begins-of_begins_either [] q h = inl (q, refl)
Begins-of_begins_either (s ∷ p) [] h = inr (s ∷ p, refl)
Begins-of_begins_either (s ∷ p) (t ∷ q) h =
    let same : s ≡ t = ground (arith, =ₖ_sound s t) in
    elim (Begins-of_begins_either p q (ground arith)) [
      | inl (rest, e) ↦ inl (rest, rw (same, e) refl)
      | inr (rest, e) ↦ inr (rest, rw (same, e) refl)
    ]

begins_either_of_Begins : (p q : List String) → Begins p q ⊎ Begins q p → begins_either p q ≡ true
unfolding begins_either
begins_either_of_Begins [] q h = refl
begins_either_of_Begins (s ∷ p) [] h = refl
begins_either_of_Begins (s ∷ p) (t ∷ q) (inl (rest, e)) =
    ground (arith, begins_either_of_Begins p q (inl (rest, tail_eq e)), head_eq e, =ₖ_refl s)
begins_either_of_Begins (s ∷ p) (t ∷ q) (inr (rest, e)) =
    ground (arith, begins_either_of_Begins p q (inr (rest, tail_eq e)), head_eq e, =ₖ_refl s)

-- Two assignment paths overlap exactly if one of them begins the other.
pub paths_overlap_iff : (p q : List String) → (paths_overlap p q ≡ true) ↔ (Begins p q ⊎ Begins q p)
paths_overlap_iff p q =
    rw (paths_overlap_lem p q) (Begins-of_begins_either p q, begins_either_of_Begins p q)

-- A path that an assignment may have: it and its segments are not empty, no segment begins with `$`,
-- and it is no literal dotted key.
abbrev pub IsAssignable : FieldPath → Type 0
IsAssignable path =
    (path ≢ [])
    × All (λ s. (is_empty s ≡ false) × (starts_with_char b'$' s ≡ false)) (segments path)
    × (is_literal_dotted_key path ≡ false)

-- No path of the list begins the path, or the other way round.
abbrev pub IsApart : List (List String) → List String → Type 0
IsApart assigned path = All (λ other. ¬ (Begins path other ⊎ Begins other path)) assigned

-- The assignments are assignable, each apart from the paths before it, and hold no placeholder.
unfoldable pub AreSettable : List (List String) → List AssignmentPlan → Type 0
AreSettable assigned [] = Unit
AreSettable assigned (a ∷ assignments) =
    IsAssignable a.path
    × IsApart assigned (segments a.path)
    × IsBound a.value
    × AreSettable (assigned ++ segments a.path ∷ []) assignments

validate_update_path-ok :
    (path : FieldPath) (assigned : List (List String))
    → validate_update_path path assigned ≡ ok tt
    → (any (paths_overlap (segments path)) assigned ≡ false)
      × (any is_empty (segments path) ≡ false)
      × (any (starts_with_char b'$') (segments path) ≡ false)
      × (path ≢ [])
unfolding validate_update_path
validate_update_path-ok [] assigned e = ground arith
validate_update_path-ok (s ∷ p) assigned e = (ground arith, ground arith, ground arith, λ h. cc)

any-eq-false : (p : String → Bool) (ss : List String) → any p ss ≡ false → All (λ s. p s ≡ false) ss
any-eq-false p [] h = tt
any-eq-false p (s ∷ ss) h = (ground arith, any-eq-false p ss (ground arith))

All-both :
    (p q : String → Bool) (ss : List String)
    → All (λ s. p s ≡ false) ss
    → All (λ s. q s ≡ false) ss
    → All (λ s. (p s ≡ false) × (q s ≡ false)) ss
All-both p q [] h k = tt
All-both p q (s ∷ ss) (h, hs) (k, ks) = ((h, k), All-both p q ss hs ks)

IsApart-of_any :
    (assigned : List (List String)) (path : List String)
    → any (paths_overlap path) assigned ≡ false
    → IsApart assigned path
IsApart-of_any [] path h = tt
IsApart-of_any (other ∷ assigned) path h = (
  λ begins. ground (arith, (paths_overlap_iff path other).1 begins),
  IsApart-of_any assigned path (ground arith),
)

module _ (api : BsonApi) where
  open api use {Document}

  set_assignments-AreSettable :
      (assignments : List AssignmentPlan) (set d : Document) (assigned : List (List String))
      → set_assignments api set assigned assignments ≡ ok d
      → AreSettable assigned assignments
  unfolding set_assignments AreSettable
  set_assignments-AreSettable [] set d assigned e = tt
  set_assignments-AreSettable (a ∷ assignments) set d assigned e =
      let (name, plain, e1) = >>=-eq-ok (mongo_field_name a.path) _ e in
      let (_, valid, e2) = >>=-eq-ok (validate_update_path a.path assigned) _ e1 in
      let (b, value, rest) = >>=-eq-ok (bson_value api a.value) _ e2 in
      let (apart, full, no_operator, some_segment) =
        validate_update_path-ok a.path assigned valid in
      (
        (
          some_segment,
          All-both is_empty (starts_with_char b'$') a.path (any-eq-false is_empty a.path full)
              (any-eq-false (starts_with_char b'$') a.path no_operator),
          mongo_field_name-ok a.path name plain,
        ),
        IsApart-of_any assigned a.path apart,
        bson_value-IsBound api a.value b value,
        set_assignments-AreSettable assignments (api.insert name b set) d
            (assigned ++ segments a.path ∷ []) rest,
      )

  -- If `update_document` returns a document, there is an assignment, the paths of the assignments
  -- are assignable and none begins another one, and no value is a placeholder.
  pub update_document-AreSettable :
      (assignments : List AssignmentPlan) (d : Document)
      → update_document api assignments ≡ ok d
      → (assignments ≢ []) × AreSettable [] assignments
  unfolding update_document
  update_document-AreSettable [] d e = absurd (ground arith)
  update_document-AreSettable (a ∷ assignments) d e =
      let (set, settable, _) = >>=-eq-ok (set_assignments api api.empty [] (a ∷ assignments)) _ e in
      (λ h. cc, set_assignments-AreSettable (a ∷ assignments) api.empty set [] settable)
