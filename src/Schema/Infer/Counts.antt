-- ===== src/Schema/Infer/Counts.antt =====
-- The counts of `SchemaProfile::infer`.
use mongres.Prelude.{
  ℕ, ◌+◌, ◌-◌, ◌≤◌, String, Bool, false, ◌||◌, List, [], ◌∷◌, Option, none, some, map, length, ◌≡◌,
  refl, arith, Bool-cases, inl, inr, All,
}
use mongres.Order.{◌=ₖ◌, =ₖ_sound, =ₖ_sym}
use mongres.Order.Derived.{list_ord}
use mongres.Order.Text.{text_ord}
use mongres.BTree.{get}
use mongres.Schema.{FieldPath, FieldProfile, find_field, field}
use mongres.Schema.Sample.{SampleValue, SampleDocument, document, end, entry}
use mongres.Schema.Infer.{
  Observations, observe_value, observe_fields, observe_document, observe_documents, profile_of,
  mark_fields, mark_dotted_key_collisions, infer, count_names,
}
use mongres.Schema.Infer.Visits.{values_at, fields_at, count}
use mongres.Schema.Infer.Added.{count-observe_fields}

abbrev has_name : String → SampleDocument → Bool
has_name name end = false
has_name name (entry key v d) = name =ₖ key || has_name name d

-- The names of the document, and of each document in its fields, are distinct.
unfoldable mutual
  pub HasDistinctNames : SampleDocument → Type 0
  HasDistinctNames end = Unit
  HasDistinctNames (entry name v d) =
      (has_name name d ≡ false) × ValueHasDistinctNames v × HasDistinctNames d

  pub ValueHasDistinctNames : SampleValue → Type 0
  ValueHasDistinctNames (document d) = HasDistinctNames d
  ValueHasDistinctNames v = Unit

-- The sum of `fields_at` over the documents.
abbrev pub documents_with : List SampleDocument → String → List String → ℕ
documents_with [] name rest = 0
documents_with (d ∷ ds) name rest = fields_at d name rest + documents_with ds name rest

fields_at-absent :
    (d : SampleDocument) (name : String) (rest : List String)
    → has_name name d ≡ false
    → fields_at d name rest ≡ 0
unfolding values_at
fields_at-absent end name rest h = refl
fields_at-absent (entry key v d) name rest h = ground (arith, fields_at-absent d name rest)

mutual
  unfolding values_at HasDistinctNames

  values_at-le-one :
      (v : SampleValue) (rest : List String) → ValueHasDistinctNames v → values_at v rest ≤ 1
  values_at-le-one v [] h = omega arith
  values_at-le-one (document d) (name ∷ rest) h = fields_at-le-one d name rest h
  values_at-le-one v (name ∷ rest) h = omega arith

  fields_at-le-one :
      (d : SampleDocument) (name : String) (rest : List String)
      → HasDistinctNames d
      → fields_at d name rest ≤ 1
  fields_at-le-one end name rest h = omega arith
  fields_at-le-one (entry key v d) name rest (new, distinct, rest_distinct) =
      elim (Bool-cases (name =ₖ key)) [
        | inl same ↦
            let is_key = =ₖ_sound name key same in
            let absent = fields_at-absent d name rest (rw is_key new) in
            ground (arith, same, absent, values_at-le-one v rest distinct)
        | inr other ↦ ground (arith, other, fields_at-le-one d name rest rest_distinct)
      ]

documents_with-le-length :
    (ds : List SampleDocument) (name : String) (rest : List String)
    → All HasDistinctNames ds
    → documents_with ds name rest ≤ length ds
documents_with-le-length [] name rest h = omega arith
documents_with-le-length (d ∷ ds) name rest (p, h) =
    omega (arith, fields_at-le-one d name rest p, documents_with-le-length ds name rest h)

observe_document_lem :
    (d : SampleDocument) (m : Observations) → observe_document m d ≡ observe_fields m [] d
unfolding observe_document observe_value
observe_document_lem end m = refl
observe_document_lem (entry name v d) m = observe_document_lem d (observe_value m (name ∷ []) v)

count-observe_documents :
    (ds : List SampleDocument) (m : Observations) (name : String) (rest : List String)
    → count (name ∷ rest) (observe_documents m ds)
      ≡ documents_with ds name rest + count (name ∷ rest) m
unfolding observe_documents
count-observe_documents [] m name rest = omega arith
count-observe_documents (d ∷ ds) m name rest =
    let seen : count (name ∷ rest) (observe_document m d)
        ≡ fields_at d name rest + count (name ∷ rest) m =
      rw (observe_document_lem d m) (count-observe_fields d m [] name rest) in
    omega (arith, seen, count-observe_documents ds (observe_document m d) name rest)

count-observed :
    (ds : List SampleDocument) (name : String) (rest : List String)
    → count (name ∷ rest) (observe_documents [] ds) ≡ documents_with ds name rest
count-observed ds name rest =
    let none_yet : count (name ∷ rest) [] ≡ 0 = unfold count get in refl in
    omega (arith, none_yet, count-observe_documents ds [] name rest)

-- What a field, or its absence, says of a path of `n` documents of which `present` have it.
unfoldable pub Counted : ℕ → ℕ → Option FieldProfile → Type 0
Counted n present none = present ≡ 0
Counted n present (some f) = (f.present_documents ≡ present) × (f.missing_documents ≡ n - present)

find_field-Counted :
    (m : Observations) (n : ℕ) (counts : List (String × ℕ)) (p : FieldPath)
    → Counted n (count p m) (find_field p (mark_fields counts (map (profile_of n) m)))
unfolding Counted count find_field mark_fields get
find_field-Counted [] n counts p = refl
find_field-Counted ((q, e) ∷ m) n counts p =
    ground (arith, =ₖ_sym q p, find_field-Counted m n counts p)

-- For documents whose names are distinct, as those of a map are, the field of a path says in how
-- many documents the path is present and in how many it is missing, and the two add up to the number
-- of documents; a path without a field is present in none.
pub field-infer-Counted :
    (ds : List SampleDocument) (name : String) (rest : List String)
    → All HasDistinctNames ds
    → Counted (length ds) (documents_with ds name rest) (field (infer ds) (name ∷ rest))
      × (documents_with ds name rest ≤ length ds)
unfolding infer mark_dotted_key_collisions field
field-infer-Counted ds name rest h =
    let m = observe_documents [] ds in
    let all = map (profile_of (length ds)) m in
    let counted = count-observed ds name rest in
    (
      rw counted at (find_field-Counted m (length ds) (count_names [] all) (name ∷ rest)),
      documents_with-le-length ds name rest h,
    )
