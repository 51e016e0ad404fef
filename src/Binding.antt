-- ===== src/Binding.antt =====
-- crates/sql-engine/src/binding.rs: positional parameters put in the place of `$n` placeholders.
pub mod Closed
pub mod Indices
pub mod Total
use Prim.Native.String
use mongres.Prelude.{
  ℕ, suc, ◌-◌, max, String, Bool, true, false, not, List, [], ◌∷◌, Option, none, some, length,
  get_elem?, any, ◌==◌, if◌then◌else◌,
}
use mongres.Text.{strip_prefix_char}
use mongres.Text.Decimal.{parse_usize, print_nat}
use mongres.Common.{Result, ok, err, ◌>>=◌, ◌>>◌, ProxyError}
use mongres.Common.Results.{traverse, try_fold, try_for_each, transpose, ok_or}
use mongres.Schema.{SchemaProfile, FieldPath}
use mongres.Plan.{
  SqlValue, placeholder, Predicate, Predicates, compare, in_list, is_null, and, or, nil, cons,
  AssignmentPlan, SelectPlan, InsertPlan, UpdatePlan, DeletePlan, StatementPlan, select, insert,
  update, delete,
}
use mongres.TypePolicy.{
  invalid_input, validate_read_predicate, validate_write_predicate, validate_write_value,
}

abbrev pub is_placeholder : SqlValue → Bool
is_placeholder (placeholder p) = true
is_placeholder v = false

-- `parse_placeholder_index`
unfoldable pub parse_placeholder_index : String → Result ProxyError ℕ
parse_placeholder_index p = do
  digits ← ok_or (strip_prefix_char b'$' p) (
      invalid_input (
        String.◌++◌ "unsupported prepared-statement placeholder '"
          (String.◌++◌ p "'; use PostgreSQL $n placeholders")))
  index ← ok_or (parse_usize digits) (
      invalid_input (
        String.◌++◌ "invalid prepared-statement placeholder '"
          (String.◌++◌ p "'; expected $ followed by a positive integer")))
  if index == 0
      then err (invalid_input "prepared-statement placeholder indexes start at $1")
      else ok index

-- `placeholder_index`
unfoldable pub placeholder_index : SqlValue → Result ProxyError ℕ
placeholder_index (placeholder p) = parse_placeholder_index p
placeholder_index v = ok 0

-- One round of the folds that compute a maximum.
abbrev pub max_with : {A : Type 0} → (A → Result ProxyError ℕ) → ℕ → A → Result ProxyError ℕ
max_with f maximum a = do index ← f a; ok (max maximum index)

-- `maximum_predicate_index`
unfoldable mutual
  pub maximum_predicate_index : Predicate → Result ProxyError ℕ
  maximum_predicate_index (compare path op value) = placeholder_index value
  maximum_predicate_index (in_list path values negated) =
      try_fold (max_with placeholder_index) 0 values
  maximum_predicate_index (is_null path negated) = ok 0
  maximum_predicate_index (and ps) = maximum_predicates_index ps 0
  maximum_predicate_index (or ps) = maximum_predicates_index ps 0

  pub maximum_predicates_index : Predicates → ℕ → Result ProxyError ℕ
  maximum_predicates_index nil maximum = ok maximum
  maximum_predicates_index (cons p ps) maximum = do
    index ← maximum_predicate_index p
    maximum_predicates_index ps (max maximum index)

-- The loop over the values of a row.
abbrev pub max_row : ℕ → List SqlValue → Result ProxyError ℕ
max_row maximum row = try_fold (max_with placeholder_index) maximum row

-- `maximum_placeholder_index`
unfoldable pub maximum_placeholder_index : StatementPlan → Result ProxyError ℕ
maximum_placeholder_index (select plan) = elim plan.filter [
  | none ↦ ok 0
  | some p ↦ max_with maximum_predicate_index 0 p
]
maximum_placeholder_index (insert plan) = try_fold max_row 0 plan.rows
maximum_placeholder_index (update plan) = do
  maximum ← try_fold (max_with (λ a. placeholder_index a.value)) 0 plan.assignments
  max_with maximum_predicate_index maximum plan.filter
maximum_placeholder_index (delete plan) = maximum_predicate_index plan.filter

-- `bind_value`
unfoldable pub bind_value : SqlValue → List SqlValue → Result ProxyError SqlValue
bind_value (placeholder p) parameters = do
  index ← parse_placeholder_index p
  ok_or (get_elem? parameters (index - 1))
      (invalid_input (String.◌++◌ "missing bound value for placeholder " p))
bind_value v parameters = ok v

-- `bind_predicate`
unfoldable mutual
  pub bind_predicate : Predicate → List SqlValue → Result ProxyError Predicate
  bind_predicate (compare path op value) parameters = do
    value' ← bind_value value parameters
    ok (compare path op value')
  bind_predicate (in_list path values negated) parameters = do
    values' ← traverse (λ value. bind_value value parameters) values
    ok (in_list path values' negated)
  bind_predicate (is_null path negated) parameters = ok (is_null path negated)
  bind_predicate (and ps) parameters = do ps' ← bind_predicates ps parameters; ok (and ps')
  bind_predicate (or ps) parameters = do ps' ← bind_predicates ps parameters; ok (or ps')

  pub bind_predicates : Predicates → List SqlValue → Result ProxyError Predicates
  bind_predicates nil parameters = ok nil
  bind_predicates (cons p ps) parameters = do
    p' ← bind_predicate p parameters
    ps' ← bind_predicates ps parameters
    ok (cons p' ps')

abbrev pub bind_row : List SqlValue → List SqlValue → Result ProxyError (List SqlValue)
bind_row parameters row = traverse (λ value. bind_value value parameters) row

abbrev pub bind_assignment : List SqlValue → AssignmentPlan → Result ProxyError AssignmentPlan
bind_assignment parameters a = do
  value ← bind_value a.value parameters
  ok (record { path = a.path; value = value })

-- The `match` of `bind_parameters`.
unfoldable pub bind_plan : StatementPlan → List SqlValue → Result ProxyError StatementPlan
bind_plan (select plan) parameters = do
  filter ← transpose (λ p. bind_predicate p parameters) plan.filter
  ok (select (record plan { filter = filter }))
bind_plan (insert plan) parameters = do
  rows ← traverse (bind_row parameters) plan.rows
  ok (insert (record plan { rows = rows }))
bind_plan (update plan) parameters = do
  assignments ← traverse (bind_assignment parameters) plan.assignments
  filter ← bind_predicate plan.filter parameters
  ok (update (record plan { assignments = assignments; filter = filter }))
bind_plan (delete plan) parameters = do
  filter ← bind_predicate plan.filter parameters
  ok (delete (record plan { filter = filter }))

-- `columns.iter().zip(row).try_for_each(…)`: the shorter list ends the loop.
unfoldable pub validate_row :
    SchemaProfile → List FieldPath → List SqlValue → Result ProxyError (Unit {0})
validate_row schema [] row = ok tt
validate_row schema (path ∷ paths) [] = ok tt
validate_row schema (path ∷ paths) (value ∷ row) =
    validate_write_value path value schema >> validate_row schema paths row

-- `validate_bound_plan`
unfoldable pub validate_bound_plan : StatementPlan → SchemaProfile → Result ProxyError (Unit {0})
unfolding validate_row
validate_bound_plan (select plan) schema = do
  checked ← transpose (λ p. validate_read_predicate p schema) plan.filter
  ok tt
validate_bound_plan (insert plan) schema = try_for_each (validate_row schema plan.columns) plan.rows
validate_bound_plan (update plan) schema = do
  try_for_each (λ a. validate_write_value a.path a.value schema) plan.assignments
  validate_write_predicate plan.filter schema
validate_bound_plan (delete plan) schema = validate_write_predicate plan.filter schema

abbrev count_mismatch : ℕ → ℕ → ProxyError
count_mismatch required given = invalid_input (
    String.◌++◌ "prepared statement requires " (
      String.◌++◌ (print_nat required) (String.◌++◌ " parameters but received " (print_nat given))))

-- `bind_parameters`
unfoldable pub bind_parameters :
    StatementPlan → List SqlValue → SchemaProfile → Result ProxyError StatementPlan
bind_parameters plan parameters schema =
    if any is_placeholder parameters
    then err (invalid_input "bound parameter values cannot be placeholders")
    else do
      required ← maximum_placeholder_index plan
      bound ←
          if not (required == length parameters)
          then err (count_mismatch required (length parameters))
          else bind_plan plan parameters
      validate_bound_plan bound schema
      ok bound
