-- ===== src/Policy/Detect/Clear.antt =====
-- When detection finds nothing, and what it finds otherwise.
use mongres.Prelude.{
  ◌≤◌, false, List, [], ◌∷◌, Option, none, some, ◌≡◌, ◌↔◌, inl, inr, refl, ◌∙◌, ap, arith,
  Option-cases, length, All,
}
use mongres.Order.Derived.{list_ord}
use mongres.Order.Text.{text_ord}
use mongres.BTree.{add}
use mongres.Common.{ok}
use mongres.Common.Results.{>>=-eq-ok, ok_injective}
use mongres.Schema.{FieldPath, FieldProfile, SchemaProfile, field}
use mongres.TypePolicy.{non_null_types}
use mongres.Policy.{WriteAmbiguity, AmbiguityKind, kind_ord}
use mongres.Policy.Detect.{ambiguity_kinds, ambiguity_from, ambiguity_for_path, detect_paths}

-- Every sampled document has the field, with at most one shape and at most one type besides null, and
-- no other field is displayed under its name. A field that was only ever null is clear.
pub record IsClear (f : FieldProfile) : Type 0 where
  pub at_most_one_type : length (non_null_types f.observed_types) ≤ 1
  pub at_most_one_shape : length f.observed_shapes ≤ 1
  pub own_name : f.has_dotted_key_collision ≡ false
  pub always_present : f.missing_documents ≡ 0

kinds-eq-nil_iff : (f : FieldProfile) → (ambiguity_kinds f ≡ []) ↔ IsClear f
unfolding ambiguity_kinds add
kinds-eq-nil_iff f = ground arith

-- The field of a path is in the profile and clear.
abbrev pub PathIsClear : SchemaProfile → FieldPath → Type 0
PathIsClear schema path = (f : FieldProfile) × (field schema path ≡ some f) × IsClear f

ambiguity_from-eq-none :
    (path : FieldPath) (f : FieldProfile) (kinds : List AmbiguityKind)
    → ambiguity_from path f kinds ≡ none
    → kinds ≡ []
ambiguity_from-eq-none path f [] e = refl
ambiguity_from-eq-none path f (k ∷ ks) e = cc

clear_of_none :
    (path : FieldPath) (schema : SchemaProfile)
    → ambiguity_for_path path schema ≡ ok none
    → PathIsClear schema path
unfolding ambiguity_for_path
clear_of_none path schema e = elim (Option-cases (field schema path)) [
  | inl missing ↦ absurd (ground (arith, missing))
  | inr (f, found) ↦ (
    f,
    found,
    (kinds-eq-nil_iff f).0
        (ambiguity_from-eq-none path f (ambiguity_kinds f) (ok_injective (rw found at e))),
  )
]

none_of_clear :
    (path : FieldPath) (schema : SchemaProfile)
    → PathIsClear schema path
    → ambiguity_for_path path schema ≡ ok none
unfolding ambiguity_for_path
none_of_clear path schema (f, found, clear) = rw (found, (kinds-eq-nil_iff f).1 clear)

pub detect_paths-clear :
    (schema : SchemaProfile) (paths : List FieldPath)
    → detect_paths schema paths ≡ ok []
    → All (PathIsClear schema) paths
unfolding detect_paths
detect_paths-clear schema [] e = tt
detect_paths-clear schema (p ∷ ps) e =
    let (found, here, e') = >>=-eq-ok (ambiguity_for_path p schema) _ e in
    let (rest, there, e'') = >>=-eq-ok (detect_paths schema ps) _ e' in
    let (nothing, empty) = none_found found rest (ok_injective e'') in
    (
      clear_of_none p schema (here ∙ ap ok nothing),
      detect_paths-clear schema ps (there ∙ ap ok empty),
    )
  where
    none_found :
        (o : Option WriteAmbiguity) (rest : List WriteAmbiguity)
        → (elim o as (λ _. List WriteAmbiguity) [ none ↦ rest | some a ↦ a ∷ rest ]) ≡ []
        → (o ≡ none) × (rest ≡ [])
    none_found none rest e = (refl, e)
    none_found (some a) rest e = cc

pub clear-detect_paths :
    (schema : SchemaProfile) (paths : List FieldPath)
    → All (PathIsClear schema) paths
    → detect_paths schema paths ≡ ok []
unfolding detect_paths
clear-detect_paths schema [] h = refl
clear-detect_paths schema (p ∷ ps) (h, hs) =
    rw (none_of_clear p schema h, clear-detect_paths schema ps hs)
