-- ===== src/Policy/Candidates/Permitted.antt =====
-- Which candidates the allowlist holds, in terms of the plan and the evidence.
use mongres.Prelude.{◌≤◌, String, false, [], ◌∷◌, ◌≡◌, length}
use mongres.Prelude.Int.{ℤ, InI64}
use mongres.Order.Derived.{list_ord}
use mongres.Order.Text.{text_ord}
use mongres.Text.Decimal.{to_string}
use mongres.Schema.{is_literal_dotted_key, ObservedType, ObservedShape, type_ord, shape_ord}
use mongres.Plan.{SqlValue, Predicate, StatementPlan, update}
use mongres.Policy.{
  WriteAmbiguity, AmbiguityKind, kind_ord, ResolutionCandidate, keep_string, keep_integer,
  format_integer_as_string, use_nested_path, reject, candidate_ord,
}
use mongres.Policy.Candidates.{predicate_references_path, parse_integer_losslessly}

-- A nested path without a dotted key, of which the only evidence is that sampled documents lack it.
pub record IsSafeNestedPath (a : WriteAmbiguity) : Type 0 where
  pub only_missing : a.kinds ≡ AmbiguityKind.missing_from_sampled_documents ∷ []
  pub not_dotted : is_literal_dotted_key a.field_path ≡ false
  pub nested : 2 ≤ length a.field_path

-- A field of which the only evidence is that every sampled document has it, as an integer or a string.
pub record IsMixedScalar (a : WriteAmbiguity) : Type 0 where
  pub only_types : a.kinds ≡ AmbiguityKind.mixed_bson_types ∷ []
  pub types : a.observed_types ≡ ObservedType.integer ∷ ObservedType.string ∷ []
  pub shapes : a.observed_shapes ≡ ObservedShape.scalar ∷ []
  pub always_present : a.missing_documents ≡ 0
  pub not_dotted : is_literal_dotted_key a.field_path ≡ false

-- The plan is an UPDATE that assigns only to the path, and does not filter by it.
abbrev pub OnlySets : StatementPlan → WriteAmbiguity → SqlValue → Type 0
OnlySets plan a value =
    (collection : String) × (filter : Predicate) × (plan
      ≡ update (record {
        collection = collection;
        assignments = record { path = a.field_path; value = value } ∷ [];
        filter = filter;
      }))
    × (predicate_references_path filter a.field_path ≡ false)

-- What each candidate asks of the plan and the evidence.
abbrev pub Permits : StatementPlan → WriteAmbiguity → ResolutionCandidate → Type 0
Permits plan a reject = Unit {0}
Permits plan a use_nested_path = IsSafeNestedPath a
Permits plan a keep_string = IsMixedScalar a × (s : String) × OnlySets plan a (SqlValue.string s)
Permits plan a ResolutionCandidate.parse_integer_losslessly =
    IsMixedScalar a × (n : ℤ) × InI64 n × OnlySets plan a (SqlValue.string (to_string n))
Permits plan a keep_integer = IsMixedScalar a × (n : ℤ) × OnlySets plan a (SqlValue.integer n)
Permits plan a format_integer_as_string =
    IsMixedScalar a × (n : ℤ) × OnlySets plan a (SqlValue.integer n)
