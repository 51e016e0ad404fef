-- ===== src/Proxy/Prepare.antt =====
-- The parameter types of a prepared statement in crates/proxy/src/lib.rs: inferred from the fields
-- beside the placeholders, and reconciled with the types that the client declares.
pub mod Counts
use Prim.Native.String
use mongres.Prelude.{
  ℕ, zero, suc, String, Bool, true, false, not, ◌||◌, List, [], ◌∷◌, ◌++◌, Option, none, some,
  length, get_elem?, ◌==◌, if◌then◌else◌,
}
use mongres.Order.{◌=ₖ◌}
use mongres.Order.Number.{nat_ord}
use mongres.Order.Text.{text_ord}
use mongres.BTree.{insert, get}
use mongres.Common.{Result, ok, err, ◌>>=◌, ProxyError}
use mongres.Common.Results.{traverse, try_fold, ok_or}
use mongres.Text.Decimal.{print_nat}
use mongres.Schema.{FieldPath, SchemaProfile, ObservedType, ObservedShape, display_name, field}
use mongres.Plan
use mongres.Plan.{
  SqlValue, placeholder, Predicate, Predicates, compare, in_list, is_null, and, or, AssignmentPlan,
  StatementPlan, select, update, delete, collection_from_plan,
}
use mongres.TypePolicy.{invalid_input, not_present, non_null_types, observed_type_name}
use mongres.Binding.{parse_placeholder_index}
use mongres.Sql.Ast.{Statement}
use mongres.F64.{F64}
use mongres.Sql.Lowering.Router.{parse_sql_for_profiles, not_allowlisted}
use mongres.Proxy.PgType.{PgType, same_type}

-- `BTreeMap<usize, Type>`
abbrev pub TypeMap : Type 0
TypeMap = List (ℕ × PgType)

-- `observed_shapes != [ObservedShape::Scalar].into()`
abbrev pub only_scalar : List ObservedShape → Bool
only_scalar (ObservedShape.scalar ∷ []) = true
only_scalar shapes = false

abbrev pub no_safe_type : FieldPath → ProxyError
no_safe_type path = invalid_input (
    String.◌++◌ "cannot infer a safe prepared-statement type for ambiguous field '"
      (String.◌++◌ (display_name path) "'"))

-- The `match` of `infer_field_parameter_type`
unfoldable pub type_of_observed : FieldPath → ObservedType → Result ProxyError PgType
type_of_observed path ObservedType.boolean = ok PgType.bool
type_of_observed path ObservedType.integer = ok PgType.int8
type_of_observed path ObservedType.floating_point = ok PgType.float8
type_of_observed path ObservedType.string = ok PgType.text
type_of_observed path t = err (
    invalid_input (
      String.◌++◌ "prepared-statement parameters are not supported for field '" (
        String.◌++◌ (display_name path)
          (String.◌++◌ "' with inferred BSON type '" (String.◌++◌ (observed_type_name t) "'")))))

-- `infer_field_parameter_type`
unfoldable pub infer_field_parameter_type : FieldPath → SchemaProfile → Result ProxyError PgType
unfolding type_of_observed
infer_field_parameter_type path schema = do
  profile ← ok_or (field schema path) (not_present path)
  observed ←
      if profile.has_dotted_key_collision
        || (not (only_scalar profile.observed_shapes)
            || not (length (non_null_types profile.observed_types) == 1))
      then err (no_safe_type path)
      else ok_or (get_elem? (non_null_types profile.observed_types) 0) (no_safe_type path)
  type_of_observed path observed

-- `types.insert(index, parameter_type)`, with the test of the type that was there
unfoldable pub put_type : String → ℕ → PgType → TypeMap → Result ProxyError TypeMap
unfolding same_type
put_type p index t types = elim (get index types) [
  | none ↦ ok (insert index t types)
  | some existing ↦
      if not (same_type existing t)
      then err (
          invalid_input (
            String.◌++◌ "prepared-statement placeholder "
              (String.◌++◌ p " is used with incompatible field types")))
      else ok (insert index t types)
]

-- The last key of the map, `key` if there is none.
abbrev pub last_key_from : ℕ → TypeMap → ℕ
last_key_from key [] = key
last_key_from key ((i, t) ∷ types) = last_key_from i types

-- `types.keys().next_back()`, 0 if there is none
abbrev pub last_key : TypeMap → ℕ
last_key types = last_key_from 0 types

-- `1..=maximum_index`
abbrev pub one_to : ℕ → List ℕ
one_to zero = []
one_to (suc n) = one_to n ++ suc n ∷ []

abbrev pub no_type_context : ℕ → ProxyError
no_type_context index = invalid_input (
    String.◌++◌ "prepared-statement placeholder $"
      (String.◌++◌ (print_nat index) " has no type context"))

module _ (schema : SchemaProfile) where
  -- `collect_value_parameter_type`
  unfoldable pub collect_value_parameter_type :
      FieldPath → TypeMap → SqlValue → Result ProxyError TypeMap
  unfolding put_type
  collect_value_parameter_type path types (placeholder p) = do
    index ← parse_placeholder_index p
    t ← infer_field_parameter_type path schema
    put_type p index t types
  collect_value_parameter_type path types v = ok types

  -- `collect_predicate_parameter_types`
  unfoldable mutual
    pub collect_predicate_parameter_types : Predicate → TypeMap → Result ProxyError TypeMap
    collect_predicate_parameter_types (compare path op v) types =
        collect_value_parameter_type path types v
    collect_predicate_parameter_types (in_list path vs negated) types =
        try_fold (collect_value_parameter_type path) types vs
    collect_predicate_parameter_types (is_null path negated) types = ok types
    collect_predicate_parameter_types (and ps) types = collect_predicates_parameter_types ps types
    collect_predicate_parameter_types (or ps) types = collect_predicates_parameter_types ps types

    pub collect_predicates_parameter_types : Predicates → TypeMap → Result ProxyError TypeMap
    collect_predicates_parameter_types Plan.nil types = ok types
    collect_predicates_parameter_types (Plan.cons p ps) types = do
      types' ← collect_predicate_parameter_types p types
      collect_predicates_parameter_types ps types'

  -- The inner loop over `columns.iter().zip(row)`
  unfoldable pub collect_row_parameter_types :
      List FieldPath → TypeMap → List SqlValue → Result ProxyError TypeMap
  collect_row_parameter_types [] types row = ok types
  collect_row_parameter_types (path ∷ paths) types [] = ok types
  collect_row_parameter_types (path ∷ paths) types (v ∷ row) = do
    types' ← collect_value_parameter_type path types v
    collect_row_parameter_types paths types' row

  -- The `match` of `infer_parameter_types`
  unfoldable pub collect_plan_parameter_types : StatementPlan → Result ProxyError TypeMap
  unfolding collect_row_parameter_types
  collect_plan_parameter_types (select plan) = elim plan.filter [
    | none ↦ ok []
    | some p ↦ collect_predicate_parameter_types p []
  ]
  collect_plan_parameter_types (Plan.insert plan) =
      try_fold (collect_row_parameter_types plan.columns) [] plan.rows
  collect_plan_parameter_types (update plan) = do
    types ←
        try_fold (λ types (a : AssignmentPlan). collect_value_parameter_type a.path types a.value)
          [] plan.assignments
    collect_predicate_parameter_types plan.filter types
  collect_plan_parameter_types (delete plan) = collect_predicate_parameter_types plan.filter []

  -- `infer_parameter_types`
  unfoldable pub infer_parameter_types : StatementPlan → Result ProxyError (List PgType)
  unfolding collect_plan_parameter_types
  infer_parameter_types plan = do
    types ← collect_plan_parameter_types plan
    traverse (λ index. ok_or (get index types) (no_type_context index)) (one_to (last_key types))

-- `compatible_parameter_type`
unfoldable pub compatible_parameter_type : PgType → PgType → Bool
compatible_parameter_type requested PgType.bool = same_type requested PgType.bool
compatible_parameter_type PgType.int2 PgType.int8 = true
compatible_parameter_type PgType.int4 PgType.int8 = true
compatible_parameter_type PgType.int8 PgType.int8 = true
compatible_parameter_type requested PgType.int8 = false
compatible_parameter_type PgType.float4 PgType.float8 = true
compatible_parameter_type PgType.float8 PgType.float8 = true
compatible_parameter_type requested PgType.float8 = false
compatible_parameter_type PgType.text PgType.text = true
compatible_parameter_type PgType.varchar PgType.text = true
compatible_parameter_type PgType.bpchar PgType.text = true
compatible_parameter_type requested PgType.text = false
compatible_parameter_type requested inferred = same_type requested inferred

-- `Type::name`
module _ (type_name : PgType → String) where
  -- One pair of `reconcile_parameter_types`
  unfoldable pub reconcile_one : ℕ → PgType → PgType → Result ProxyError PgType
  unfolding same_type compatible_parameter_type
  reconcile_one index requested inferred =
      if same_type requested PgType.unknown
      then ok inferred
      else if compatible_parameter_type requested inferred
      then ok requested
      else err (
          invalid_input (
            String.◌++◌ "prepared statement parameter $" (
              String.◌++◌ (print_nat (suc index)) (
                String.◌++◌ " declares PostgreSQL type '" (
                  String.◌++◌ (type_name requested) (
                    String.◌++◌ "' but schema requires '"
                      (String.◌++◌ (type_name inferred) "'")))))))

  -- The loop of `reconcile_parameter_types` over `zip(…).enumerate()`
  unfoldable pub reconcile_from : ℕ → List PgType → List PgType → Result ProxyError (List PgType)
  unfolding reconcile_one
  reconcile_from index [] inferred = ok []
  reconcile_from index (r ∷ requested) [] = ok []
  reconcile_from index (r ∷ requested) (i ∷ inferred) = do
    t ← reconcile_one index r i
    types ← reconcile_from (suc index) requested inferred
    ok (t ∷ types)

  -- `reconcile_parameter_types`
  unfoldable pub reconcile_parameter_types :
      List PgType → List PgType → Result ProxyError (List PgType)
  unfolding reconcile_from
  reconcile_parameter_types [] inferred = ok inferred
  reconcile_parameter_types (r ∷ requested) inferred =
      if not (length (r ∷ requested) == length inferred)
      then err (
          invalid_input (
            String.◌++◌ "prepared statement declares " (
              String.◌++◌ (print_nat (length (r ∷ requested))) (
                String.◌++◌ " parameter type(s) but SQL requires " (print_nat (length inferred))))))
      else reconcile_from 0 (r ∷ requested) inferred
