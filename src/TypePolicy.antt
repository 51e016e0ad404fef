-- ===== src/TypePolicy.antt =====
-- crates/sql-engine/src/type_policy.rs: SQL values against the inferred BSON types.
pub mod Writes
use Prim.Native.String
use mongres.Prelude.{
  String, Bool, true, false, ◌||◌, not, List, [], ◌∷◌, Option, none, some, length, get_elem?, ◌==◌,
  if◌then◌else◌,
}
use mongres.Order.{◌=ₖ◌}
use mongres.Common.{Result, ok, err, ◌>>=◌, ◌>>◌, ProxyError, proxy_error, ErrorKind}
use mongres.Common.Results.{try_for_each, ok_or}
use mongres.Schema.{FieldPath, display_name, ObservedType, type_ord, SchemaProfile, field}
use mongres.Plan.{
  SqlValue, null, boolean, integer, floating_point, string, placeholder, Predicate, Predicates,
  compare, in_list, is_null, and, or, nil, cons,
}

abbrev pub invalid_input : String → ProxyError
invalid_input message = proxy_error ErrorKind.invalid_input message

-- The types other than null, in the order of the set.
unfoldable pub non_null_types : List ObservedType → List ObservedType
non_null_types [] = []
non_null_types (t ∷ ts) =
    let rest = non_null_types ts in if t =ₖ ObservedType.null then rest else t ∷ rest

abbrev pub not_present : FieldPath → ProxyError
not_present path = invalid_input (
    String.◌++◌ "field '"
      (String.◌++◌ (display_name path) "' is not present in the active schema profile"))

-- `validate_field_shape`
unfoldable pub validate_field_shape :
    FieldPath → SchemaProfile → Result ProxyError (Option ObservedType)
validate_field_shape path schema = do
  profile ← ok_or (field schema path) (not_present path)
  let types = non_null_types profile.observed_types
  if profile.has_dotted_key_collision
        || (not (length profile.observed_shapes == 1) || not (length types == 1))
      then ok none
      else ok (get_elem? types 0)

-- `is_compatible`
unfoldable pub is_compatible : SqlValue → ObservedType → Bool
is_compatible (boolean b) ObservedType.boolean = true
is_compatible (integer n) ObservedType.integer = true
is_compatible (floating_point x) ObservedType.floating_point = true
is_compatible (string s) ObservedType.string = true
is_compatible v t = false

-- `observed_type_name`
unfoldable pub observed_type_name : ObservedType → String
observed_type_name ObservedType.null = "null"
observed_type_name ObservedType.boolean = "boolean"
observed_type_name ObservedType.integer = "integer"
observed_type_name ObservedType.floating_point = "floating-point"
observed_type_name ObservedType.string = "string"
observed_type_name ObservedType.date_time = "datetime"
observed_type_name ObservedType.object_id = "object-id"
observed_type_name ObservedType.document = "document"
observed_type_name ObservedType.array = "array"

abbrev pub not_compatible : FieldPath → ObservedType → ProxyError
not_compatible path t = invalid_input (
    String.◌++◌ "value for field '" (
      String.◌++◌ (display_name path) (
        String.◌++◌ "' is not compatible with inferred BSON type '"
          (String.◌++◌ (observed_type_name t) "'"))))

-- The part of `validate_value` that looks at the field.
unfoldable pub validate_typed : FieldPath → SqlValue → SchemaProfile → Result ProxyError (Unit {0})
unfolding validate_field_shape is_compatible
validate_typed path value schema = do
  observed ← validate_field_shape path schema
  elim observed [
    | none ↦ ok tt
    | some t ↦ if is_compatible value t then ok tt else err (not_compatible path t)
  ]

-- `validate_value`
unfoldable pub validate_value :
    FieldPath → SqlValue → SchemaProfile → Bool → Result ProxyError (Unit {0})
unfolding validate_typed
validate_value path (placeholder p) schema null_is_allowed = ok tt
validate_value path null schema true = ok tt
validate_value path null schema false =
    err (
      invalid_input
        "SQL NULL cannot be used in a comparison or IN list; use IS NULL or IS NOT NULL")
validate_value path value schema null_is_allowed = validate_typed path value schema

abbrev ignore {ℓ} : {A : Type ℓ} → Result ProxyError A → Result ProxyError (Unit {0})
ignore m = m >>= λ _. ok tt

-- `validate_write_predicate`
unfoldable mutual
  pub validate_write_predicate : Predicate → SchemaProfile → Result ProxyError (Unit {0})
  validate_write_predicate (compare path op value) schema = validate_value path value schema false
  validate_write_predicate (in_list path values negated) schema =
      try_for_each (λ value. validate_value path value schema false) values
  validate_write_predicate (is_null path negated) schema = ignore (validate_field_shape path schema)
  validate_write_predicate (and ps) schema = validate_write_predicates ps schema
  validate_write_predicate (or ps) schema = validate_write_predicates ps schema

  pub validate_write_predicates : Predicates → SchemaProfile → Result ProxyError (Unit {0})
  validate_write_predicates nil schema = ok tt
  validate_write_predicates (cons p ps) schema =
      validate_write_predicate p schema >> validate_write_predicates ps schema

-- `validate_read_predicate`
unfoldable mutual
  pub validate_read_predicate : Predicate → SchemaProfile → Result ProxyError (Unit {0})
  validate_read_predicate (compare path op value) schema = validate_value path value schema false
  validate_read_predicate (in_list path values negated) schema =
      try_for_each (λ value. validate_value path value schema false) values
  validate_read_predicate (is_null path negated) schema = ignore (validate_field_shape path schema)
  validate_read_predicate (and ps) schema = validate_read_predicates ps schema
  validate_read_predicate (or ps) schema = validate_read_predicates ps schema

  pub validate_read_predicates : Predicates → SchemaProfile → Result ProxyError (Unit {0})
  validate_read_predicates nil schema = ok tt
  validate_read_predicates (cons p ps) schema =
      validate_read_predicate p schema >> validate_read_predicates ps schema

-- `validate_write_value`
unfoldable pub validate_write_value :
    FieldPath → SqlValue → SchemaProfile → Result ProxyError (Unit {0})
unfolding validate_value
validate_write_value path value schema = validate_value path value schema true
