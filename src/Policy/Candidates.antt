-- ===== src/Policy/Candidates.antt =====
-- `allowed_candidates` and `validate_resolution` of crates/ambiguity-policy/src/lib.rs.
pub mod Allowed
pub mod Permitted
use Prim.Native.String
use mongres.Prelude.{
  ℕ, String, Bool, true, false, not, ◌&&◌, ◌||◌, List, [], ◌∷◌, Option, none, some, length, ltb,
  leb, ◌==◌, if◌then◌else◌,
}
use mongres.Prelude.Int.{ℤ}
use mongres.Order.{◌=ₖ◌}
use mongres.Order.Derived.{list_ord}
use mongres.Order.Text.{text_ord}
use mongres.BTree.{add, contains}
use mongres.Text.Decimal.{parse_i64, to_string}
use mongres.Common.{Result, ok, err, ◌>>=◌, ProxyError, proxy_error, ErrorKind}
use mongres.Schema.{
  FieldPath, display_name, is_literal_dotted_key, ObservedType, ObservedShape, type_ord, shape_ord,
}
use mongres.Plan.{
  SqlValue, Predicate, Predicates, compare, in_list, is_null, and, or, nil, cons, AssignmentPlan,
  UpdatePlan, StatementPlan, update,
}
use mongres.Policy.{
  WriteAmbiguity, AmbiguityKind, mixed_bson_types, missing_from_sampled_documents, kind_ord,
  ResolutionCandidate, keep_string, keep_integer, format_integer_as_string, use_nested_path, reject,
  candidate_ord, ValidatedResolution,
}

-- `parse_integer_losslessly`
unfoldable pub parse_integer_losslessly : String → Option ℤ
parse_integer_losslessly value = elim (parse_i64 value) [
  | none ↦ none
  | some parsed ↦ if to_string parsed =ₖ value then some parsed else none
]

-- `predicate_references_path`
unfoldable mutual
  pub predicate_references_path : Predicate → FieldPath → Bool
  predicate_references_path (compare path op value) target = path =ₖ target
  predicate_references_path (in_list path values negated) target = path =ₖ target
  predicate_references_path (is_null path negated) target = path =ₖ target
  predicate_references_path (and ps) target = predicates_reference_path ps target
  predicate_references_path (or ps) target = predicates_reference_path ps target

  pub predicates_reference_path : Predicates → FieldPath → Bool
  predicates_reference_path nil target = false
  predicates_reference_path (cons p ps) target =
      predicate_references_path p target || predicates_reference_path ps target

-- `[assignment] = assignments.as_slice()`, at the target path
abbrev pub sole_value : List AssignmentPlan → FieldPath → Option SqlValue
sole_value [] target = none
sole_value (a ∷ []) target = if a.path =ₖ target then some a.value else none
sole_value (a ∷ b ∷ more) target = none

abbrev pub update_value : StatementPlan → FieldPath → Option SqlValue
update_value (update plan) target =
    if predicate_references_path plan.filter target
    then none
    else sole_value plan.assignments target
update_value plan target = none

-- The evidence for which a mixed-type primitive exists.
unfoldable pub is_mixed_scalar : WriteAmbiguity → Bool
is_mixed_scalar a =
    (a.kinds =ₖ (mixed_bson_types ∷ []))
    && ((a.observed_types =ₖ (ObservedType.integer ∷ ObservedType.string ∷ []))
        && ((a.observed_shapes =ₖ (ObservedShape.scalar ∷ []))
            && ((a.missing_documents == 0) && not (is_literal_dotted_key a.field_path))))

-- `mixed_type_assignment_value`
unfoldable pub mixed_type_assignment_value : StatementPlan → WriteAmbiguity → Option SqlValue
unfolding is_mixed_scalar
mixed_type_assignment_value plan a =
    if not (is_mixed_scalar a) then none else update_value plan a.field_path

unfoldable pub nested_path_is_safe : WriteAmbiguity → Bool
nested_path_is_safe a =
    (a.kinds =ₖ (missing_from_sampled_documents ∷ []))
    && (not (is_literal_dotted_key a.field_path) && leb 2 (length a.field_path))

-- The candidates for the value of a mixed-type assignment.
abbrev pub add_value_candidates :
    Option SqlValue → List ResolutionCandidate → List ResolutionCandidate
add_value_candidates (some (SqlValue.string value)) cs = elim (parse_integer_losslessly value) [
  | some n ↦ add ResolutionCandidate.parse_integer_losslessly (add keep_string cs)
  | none ↦ add keep_string cs
]
add_value_candidates (some (SqlValue.integer n)) cs =
    add format_integer_as_string (add keep_integer cs)
add_value_candidates value cs = cs

-- `allowed_candidates`
unfoldable pub allowed_candidates : StatementPlan → WriteAmbiguity → List ResolutionCandidate
unfolding nested_path_is_safe
allowed_candidates plan a =
    let start = reject ∷ [] in
    let candidates = if nested_path_is_safe a then add use_nested_path start else start in
    add_value_candidates (mixed_type_assignment_value plan a) candidates

-- `validate_resolution`
unfoldable pub validate_resolution :
    StatementPlan → WriteAmbiguity → ResolutionCandidate → Result ProxyError ValidatedResolution
validate_resolution plan a candidate =
    if not (contains candidate (allowed_candidates plan a))
    then err (
        proxy_error ErrorKind.ambiguous_write (
          String.◌++◌ "resolver candidate is not allowed for ambiguous field '"
            (String.◌++◌ (display_name a.field_path) "'")))
    else ok (record { field_path = a.field_path; candidate = candidate })
