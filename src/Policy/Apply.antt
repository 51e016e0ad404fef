-- ===== src/Policy/Apply.antt =====
-- `apply_resolution` and `unresolved_write_error` of crates/ambiguity-policy/src/lib.rs.
pub mod Outcome
pub mod Progress
pub mod Kept
use Prim.Native.String
use mongres.Prelude.{
  ℕ, String, Bool, true, false, not, ◌||◌, List, [], ◌∷◌, Option, none, some, length, ltb, any, map,
  if◌then◌else◌,
}
use mongres.Prelude.Int.{ℤ}
use mongres.Order.{◌=ₖ◌}
use mongres.Order.Derived.{list_ord}
use mongres.Order.Text.{text_ord}
use mongres.Text.Decimal.{to_string}
use mongres.Common.{Result, ok, err, ◌>>=◌, ProxyError, proxy_error, ErrorKind}
use mongres.Common.Results.{ok_or}
use mongres.Schema.{FieldPath, display_name, is_literal_dotted_key, ObservedType, ObservedShape}
use mongres.Plan.{
  SqlValue, AssignmentPlan, UpdatePlan, StatementPlan, select, insert, update, delete,
}
use mongres.Policy.{
  WriteAmbiguity, mixed_bson_types, ResolutionCandidate, keep_string, keep_integer,
  format_integer_as_string, use_nested_path, reject, ValidatedResolution,
}
use mongres.Policy.Candidates.{parse_integer_losslessly, mixed_type_assignment_value}

abbrev pub ambiguous_write : String → ProxyError
ambiguous_write message = proxy_error ErrorKind.ambiguous_write message

-- `mixed_type_ambiguity`
abbrev pub mixed_type_ambiguity : FieldPath → WriteAmbiguity
mixed_type_ambiguity path = record {
  field_path = path;
  kinds = mixed_bson_types ∷ [];
  observed_types = ObservedType.integer ∷ ObservedType.string ∷ [];
  observed_shapes = ObservedShape.scalar ∷ [];
  missing_documents = 0;
}

-- `write_plan_references_path`
unfoldable pub write_plan_references_path : StatementPlan → FieldPath → Bool
write_plan_references_path (insert plan) target = any (λ path. path =ₖ target) plan.columns
write_plan_references_path (update plan) target = any (λ a. a.path =ₖ target) plan.assignments
write_plan_references_path (delete plan) target = false
write_plan_references_path (select plan) target = false

abbrev pub string_value : Option SqlValue → Option String
string_value (some (SqlValue.string s)) = some s
string_value v = none

abbrev pub integer_value : Option SqlValue → Option ℤ
integer_value (some (SqlValue.integer n)) = some n
integer_value v = none

abbrev pub is_string : SqlValue → Bool
is_string (SqlValue.string s) = true
is_string v = false

abbrev pub is_integer : SqlValue → Bool
is_integer (SqlValue.integer n) = true
is_integer v = false

-- The shared body of the two `retype_update_assignment` functions: the one assignment, at the target
-- path and with a value that passes the test, gets the new value.
abbrev pub retype :
    (SqlValue → Bool)
    → SqlValue
    → String
    → UpdatePlan
    → FieldPath
    → List AssignmentPlan
    → Result ProxyError StatementPlan
retype test value candidate plan target [] =
    err (ambiguous_write (String.◌++◌ candidate " candidate requires exactly one assignment"))
retype test value candidate plan target (a ∷ []) =
    if not (a.path =ₖ target) || not (test a.value)
    then err
        (ambiguous_write (String.◌++◌ candidate " candidate does not match the parsed assignment"))
    else ok (update (record plan { assignments = record { path = a.path; value = value } ∷ [] }))
retype test value candidate plan target (a ∷ b ∷ more) =
    err (ambiguous_write (String.◌++◌ candidate " candidate requires exactly one assignment"))

-- `retype_update_assignment`
unfoldable pub retype_update_assignment :
    StatementPlan → FieldPath → ℤ → Result ProxyError StatementPlan
retype_update_assignment (update plan) target n =
    retype is_string (SqlValue.integer n) "integer conversion" plan target plan.assignments
retype_update_assignment plan target n =
    err (ambiguous_write "integer conversion candidate requires an UPDATE assignment")

-- `retype_update_assignment_as_string`
unfoldable pub retype_update_assignment_as_string :
    StatementPlan → FieldPath → ℤ → Result ProxyError StatementPlan
retype_update_assignment_as_string (update plan) target n =
    retype is_integer (SqlValue.string (to_string n)) "integer string formatting" plan target
      plan.assignments
retype_update_assignment_as_string plan target n =
    err (ambiguous_write "integer string formatting candidate requires an UPDATE assignment")

-- The value that the mixed-type candidates act on.
abbrev pub target_value : StatementPlan → FieldPath → Option SqlValue
target_value plan path = mixed_type_assignment_value plan (mixed_type_ambiguity path)

-- `apply_resolution`, by candidate
unfoldable pub apply_candidate :
    StatementPlan → FieldPath → ResolutionCandidate → Result ProxyError StatementPlan
unfolding write_plan_references_path retype_update_assignment retype_update_assignment_as_string
apply_candidate plan path reject = err (
    ambiguous_write (
      String.◌++◌ "resolver selected rejection for ambiguous field '"
        (String.◌++◌ (display_name path) "'")))
apply_candidate plan path use_nested_path =
    if is_literal_dotted_key path
      || (ltb (length path) 2 || not (write_plan_references_path plan path))
    then err (ambiguous_write "nested-path resolution does not match a safe parsed write field")
    else ok plan
apply_candidate plan path keep_string = do
  value ←
      ok_or (string_value (target_value plan path))
        (ambiguous_write "string-preserving candidate does not match a safe typed assignment")
  ok plan
apply_candidate plan path ResolutionCandidate.parse_integer_losslessly = do
  value ←
      ok_or (string_value (target_value plan path))
        (ambiguous_write "integer conversion candidate does not match a safe typed assignment")
  integer ←
      ok_or (parse_integer_losslessly value)
        (ambiguous_write "integer conversion candidate requires a canonical signed-decimal string")
  retype_update_assignment plan path integer
apply_candidate plan path keep_integer = do
  value ←
      ok_or (integer_value (target_value plan path))
        (ambiguous_write "integer-preserving candidate does not match a safe typed assignment")
  ok plan
apply_candidate plan path format_integer_as_string = do
  value ←
      ok_or (integer_value (target_value plan path))
        (ambiguous_write "string formatting candidate does not match a safe typed assignment")
  retype_update_assignment_as_string plan path value

-- `apply_resolution`
unfoldable pub apply_resolution :
    StatementPlan → ValidatedResolution → Result ProxyError StatementPlan
unfolding apply_candidate
apply_resolution plan resolution = apply_candidate plan resolution.field_path resolution.candidate

-- `join(", ")`
unfoldable pub join_commas : List String → String
join_commas [] = ""
join_commas (s ∷ []) = s
join_commas (s ∷ t ∷ r) = String.◌++◌ s (String.◌++◌ ", " (join_commas (t ∷ r)))

-- `unresolved_write_error`
unfoldable pub unresolved_write_error : List WriteAmbiguity → ProxyError
unfolding join_commas
unresolved_write_error ambiguities = ambiguous_write (
    String.◌++◌ "write requires a validated ambiguity resolution for field(s): "
      (join_commas (map (λ a. display_name a.field_path) ambiguities)))
