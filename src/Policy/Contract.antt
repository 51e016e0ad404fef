-- ===== src/Policy/Contract.antt =====
-- `resolver_request` and `validate_resolver_response` of crates/ambiguity-policy/src/lib.rs. How the
-- standard library prints an `f64` is a parameter.
pub mod Accepted
use Prim.Native.String
use mongres.Prelude.{
  ℕ, suc, String, len, Bool, true, false, not, ◌||◌, List, [], ◌∷◌, Option, none, some, get_elem?,
  ltb, map, ◌==◌, if◌then◌else◌,
}
use mongres.F64.{F64, is_finite, less, one_f64}
use mongres.Order.{◌=ₖ◌}
use mongres.Order.Derived.{list_ord}
use mongres.Order.Text.{text_ord}
use mongres.Text.{is_empty, take_chars}
use mongres.Text.Decimal.{to_string}
use mongres.Common.{Result, ok, err, ◌>>=◌, ProxyError, proxy_error, ErrorKind}
use mongres.Schema.{FieldPath, segments, ObservedType, ObservedShape}
use mongres.Plan.{SqlValue, AssignmentPlan, StatementPlan, select, insert, update, delete}
use mongres.Policy.{
  WriteAmbiguity, WriteOperation, operation_eq, ResolutionCandidate, ValidatedResolution,
  ResolverWriteValueEvidence, ResolverAmbiguityEvidence, ResolverRequest, ResolverResponse,
}
use mongres.Policy.Candidates.{allowed_candidates, validate_resolution}

-- `RESOLUTION_CONTRACT_VERSION`
abbrev pub resolution_contract_version : String
resolution_contract_version = "v2"

-- `observed_type_name`
unfoldable pub observed_type_name : ObservedType → String
observed_type_name ObservedType.null = "null"
observed_type_name ObservedType.boolean = "boolean"
observed_type_name ObservedType.integer = "integer"
observed_type_name ObservedType.floating_point = "floating_point"
observed_type_name ObservedType.string = "string"
observed_type_name ObservedType.date_time = "datetime"
observed_type_name ObservedType.object_id = "object_id"
observed_type_name ObservedType.document = "document"
observed_type_name ObservedType.array = "array"

-- `observed_shape_name`
unfoldable pub observed_shape_name : ObservedShape → String
observed_shape_name ObservedShape.scalar = "scalar"
observed_shape_name ObservedShape.document = "document"
observed_shape_name ObservedShape.array = "array"

abbrev bool_text : Bool → String
bool_text true = "true"
bool_text false = "false"

abbrev evidence : String → Option String → ResolverWriteValueEvidence
evidence sql_type preview = record { sql_type = sql_type; value_preview = preview }

-- `columns.iter().position(|path| path == target)`
unfoldable pub position : FieldPath → List FieldPath → Option ℕ
position target [] = none
position target (p ∷ ps) =
    let rest = position target ps in
    if p =ₖ target then some 0 else elim rest [ none ↦ none | some i ↦ some (suc i) ]

-- `iter().find(|assignment| assignment.path == target)`
unfoldable pub find_assignment : FieldPath → List AssignmentPlan → Option AssignmentPlan
find_assignment target [] = none
find_assignment target (a ∷ rest) = if a.path =ₖ target then some a else find_assignment target rest

-- `rows.first().and_then(|row| row.get(index))`
abbrev first_row_value : List (List SqlValue) → ℕ → Option SqlValue
first_row_value [] i = none
first_row_value (row ∷ rows) i = get_elem? row i

abbrev bind_option {ℓ κ} : {A : Type ℓ} {B : Type κ} → Option A → (A → Option B) → Option B
bind_option none f = none
bind_option (some a) f = f a

module _ (show_f64 : F64 → String) where
  -- `value_evidence`
  unfoldable pub value_evidence : SqlValue → ResolverWriteValueEvidence
  value_evidence SqlValue.null = evidence "null" none
  value_evidence (SqlValue.boolean b) = evidence "boolean" (some (bool_text b))
  value_evidence (SqlValue.integer n) = evidence "integer" (some (to_string n))
  value_evidence (SqlValue.floating_point x) = evidence "floating_point" (some (show_f64 x))
  value_evidence (SqlValue.string s) = evidence "string" (some (take_chars 128 s))
  value_evidence (SqlValue.placeholder p) = evidence "placeholder" (some p)

  -- `write_value_evidence`
  unfoldable pub write_value_evidence :
      StatementPlan → WriteAmbiguity → Option ResolverWriteValueEvidence
  unfolding value_evidence position find_assignment
  write_value_evidence (insert plan) a =
      bind_option (position a.field_path plan.columns)
        λ i. bind_option (first_row_value plan.rows i) λ v. some (value_evidence v)
  write_value_evidence (update plan) a =
      bind_option (find_assignment a.field_path plan.assignments)
        λ found. some (value_evidence found.value)
  write_value_evidence (select plan) a = none
  write_value_evidence (delete plan) a = none

  -- `resolver_request`
  unfoldable pub resolver_request :
      StatementPlan → WriteOperation → ℕ → WriteAmbiguity → ResolverRequest
  unfolding write_value_evidence observed_type_name observed_shape_name
  resolver_request plan operation version a = record {
    contract_version = resolution_contract_version;
    schema_profile_version = version;
    operation = operation;
    target_path = segments a.field_path;
    write_value = write_value_evidence plan a;
    ambiguity = record {
      kinds = a.kinds;
      observed_types = map observed_type_name a.observed_types;
      observed_shapes = map observed_shape_name a.observed_shapes;
      missing_documents = a.missing_documents;
    };
    allowed_candidates = allowed_candidates plan a;
  }

-- The condition under which `validate_resolver_response` refuses a response.
unfoldable pub is_malformed : ResolverRequest → ResolverResponse → F64 → Bool
is_malformed request response minimum_confidence =
    not (response.contract_version =ₖ resolution_contract_version)
    || (not (response.schema_profile_version == request.schema_profile_version)
        || (not (operation_eq response.operation request.operation)
            || (not (response.target_path =ₖ request.target_path)
                || (not (is_finite response.confidence)
                    || (less response.confidence minimum_confidence
                        || (less one_f64 response.confidence
                            || (is_empty response.rationale
                                || ltb 500 (len response.rationale))))))))

-- `validate_resolver_response`
unfoldable pub validate_resolver_response :
    ResolverRequest
    → StatementPlan
    → WriteAmbiguity
    → ResolverResponse
    → F64
    → Result ProxyError ValidatedResolution
unfolding is_malformed
validate_resolver_response request plan a response minimum_confidence =
    if is_malformed request response minimum_confidence
    then err (
        proxy_error ErrorKind.ambiguous_write
          "resolver response failed contract, profile, field, confidence, or rationale validation")
    else validate_resolution plan a response.candidate
