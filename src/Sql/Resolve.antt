-- ===== src/Sql/Resolve.antt =====
-- crates/sql-engine/src/resolve.rs. How the standard library reads an `f64` is a parameter.
pub mod Known
use Prim.Native.String
use Prim.Native.Char.{Char}
use mongres.Prelude.{
  ℕ, String, Bool, true, false, not, ◌&&◌, ◌||◌, List, [], ◌∷◌, Option, none, some, map,
  if◌then◌else◌,
}
use mongres.Prelude.Int.{ℤ, pos, negsuc}
use mongres.F64.{F64}
use mongres.Order.{◌=ₖ◌}
use mongres.Order.Text.{text_ord}
use mongres.Text.{contains_char, split_char}
use mongres.Text.Decimal.{parse_i64}
use mongres.Common.{Result, ok, err, ◌>>=◌, ◌>>◌, ProxyError}
use mongres.Common.Results.{traverse, ok_or}
use mongres.Schema.{FieldPath, top_level, child, SchemaProfile, field}
use mongres.Plan
use mongres.Plan.{SqlValue, ComparisonOperator, Predicate, compare, in_list, is_null}
use mongres.TypePolicy.{invalid_input, not_present}
use mongres.Sql.{unsupported_feature}
use mongres.Sql.Ast
use mongres.Sql.Ast.{
  Ident, ident_new, ObjectName, Value, Expr, exprs, BinaryOperator, TableFactor, TableWithJoins,
}

-- `collection_name_from_object_name`
unfoldable pub collection_name_from_object_name : ObjectName → Result ProxyError String
collection_name_from_object_name (i ∷ []) = ok i.value
collection_name_from_object_name name = err (unsupported_feature "qualified collection name")

abbrev relation_name : TableFactor → Result ProxyError String
relation_name (TableFactor.table name true) = err (unsupported_feature "table-valued function")
relation_name (TableFactor.table name false) = collection_name_from_object_name name
relation_name TableFactor.other = err (unsupported_feature "non-table FROM source")

-- `collection_name_from_table_with_joins`
unfoldable pub collection_name_from_table_with_joins : TableWithJoins → Result ProxyError String
unfolding collection_name_from_object_name
collection_name_from_table_with_joins table =
    if table.has_joins then err (unsupported_feature "JOIN") else relation_name table.relation

-- The test that a statement names the active collection.
abbrev pub matching : String → String → Result ProxyError String
matching expected collection =
    if not (collection =ₖ expected)
    then err (
        invalid_input (
          String.◌++◌ "collection '" (
            String.◌++◌ collection
              (String.◌++◌ "' does not match the active collection '" (String.◌++◌ expected "'")))))
    else ok collection

-- `collection_from_table_with_joins`
unfoldable pub collection_from_table_with_joins : TableWithJoins → String → Result ProxyError String
collection_from_table_with_joins table expected =
    collection_name_from_table_with_joins table >>= matching expected

-- `collection_from_object_name`
unfoldable pub collection_from_object_name : ObjectName → String → Result ProxyError String
collection_from_object_name name expected =
    collection_name_from_object_name name >>= matching expected

abbrev no_quotes : Option Char → Bool
no_quotes none = true
no_quotes (some c) = false

-- `strip_prefix(&[Ident::new(collection)]).unwrap_or(identifiers)`: a quoted identifier is no prefix.
unfoldable pub strip_collection : String → List Ident → List Ident
strip_collection collection [] = []
strip_collection collection (i ∷ rest) =
    if (i.value =ₖ collection) && no_quotes i.quote_style then rest else i ∷ rest

-- `fold(path, |path, part| path.child(part))`
unfoldable pub path_from : FieldPath → List String → FieldPath
path_from path [] = path
path_from path (part ∷ parts) = path_from (child path part) parts

-- The test of a path against the profile.
abbrev known_path : FieldPath → SchemaProfile → Result ProxyError FieldPath
known_path path schema = do found ← ok_or (field schema path) (not_present path); ok path

-- `resolve_field`, after the collection is stripped
abbrev resolve_parts : List Ident → SchemaProfile → Result ProxyError FieldPath
resolve_parts [] schema = err (invalid_input "field path cannot be empty")
resolve_parts (first ∷ rest) schema =
    known_path (path_from (top_level first.value) (map (λ i. i.value) rest)) schema

-- `resolve_field`
unfoldable pub resolve_field : List Ident → String → SchemaProfile → Result ProxyError FieldPath
unfolding strip_collection path_from
resolve_field identifiers collection schema =
    resolve_parts (strip_collection collection identifiers) schema

-- `resolve_expression_field`
unfoldable pub resolve_expression_field :
    Expr → String → SchemaProfile → Result ProxyError FieldPath
resolve_expression_field (Expr.identifier i) collection schema =
    resolve_field (i ∷ []) collection schema
resolve_expression_field (Expr.compound_identifier is) collection schema =
    resolve_field is collection schema
resolve_expression_field e collection schema = err (unsupported_feature "field expression")

-- The steps of `resolve_insert_column` after the exact name is not found.
unfoldable pub resolve_dotted_column :
    Ident → List String → String → SchemaProfile → Result ProxyError FieldPath
unfolding path_from
resolve_dotted_column i [] collection schema = err (invalid_input "field path cannot be empty")
resolve_dotted_column i (first ∷ rest) collection schema =
    let path = path_from (top_level first) rest in
    elim (field schema path) [ some f ↦ ok path | none ↦ resolve_field (i ∷ []) collection schema ]

-- `resolve_insert_column`
unfoldable pub resolve_insert_column : Ident → String → SchemaProfile → Result ProxyError FieldPath
unfolding resolve_dotted_column
resolve_insert_column i collection schema = elim (field schema (top_level i.value)) [
  | some f ↦ ok (top_level i.value)
  | none ↦ resolve_dotted_column i (split_char b'.' i.value) collection schema
]

-- `parse_comparison_operator`
unfoldable pub parse_comparison_operator : BinaryOperator → Result ProxyError ComparisonOperator
parse_comparison_operator BinaryOperator.eq = ok ComparisonOperator.equal
parse_comparison_operator BinaryOperator.not_eq = ok ComparisonOperator.not_equal
parse_comparison_operator BinaryOperator.gt = ok ComparisonOperator.greater_than
parse_comparison_operator BinaryOperator.gt_eq = ok ComparisonOperator.greater_than_or_equal
parse_comparison_operator BinaryOperator.lt = ok ComparisonOperator.less_than
parse_comparison_operator BinaryOperator.lt_eq = ok ComparisonOperator.less_than_or_equal
parse_comparison_operator op = err (unsupported_feature "comparison operator")

module _ (parse_f64 : String → Option F64) where
  -- The number literals of `parse_value`.
  unfoldable pub parse_number : String → Result ProxyError SqlValue
  parse_number text =
      if contains_char b'.' text || (contains_char b'e' text || contains_char b'E' text)
      then (do
        x ←
            ok_or (parse_f64 text)
              (invalid_input (String.◌++◌ "numeric value is outside supported range: " text))
        ok (SqlValue.floating_point x))
      else (do
        n ←
            ok_or (parse_i64 text)
              (invalid_input (String.◌++◌ "integer value is outside supported range: " text))
        ok (SqlValue.integer n))

  -- `parse_value`, of a literal
  unfoldable pub parse_literal : Value → Result ProxyError SqlValue
  unfolding parse_number
  parse_literal Value.null = ok SqlValue.null
  parse_literal (Value.boolean b) = ok (SqlValue.boolean b)
  parse_literal (Value.single_quoted_string s) = ok (SqlValue.string s)
  parse_literal (Value.escaped_string_literal s) = ok (SqlValue.string s)
  parse_literal (Value.unicode_string_literal s) = ok (SqlValue.string s)
  parse_literal (Value.national_string_literal s) = ok (SqlValue.string s)
  parse_literal (Value.placeholder p) = ok (SqlValue.placeholder p)
  parse_literal (Value.number text) = parse_number text
  parse_literal Value.other = err (unsupported_feature "SQL literal type")

  -- `parse_value`
  unfoldable pub parse_value : Expr → Result ProxyError SqlValue
  unfolding parse_literal
  parse_value (Expr.value v) = parse_literal v
  parse_value e = err (unsupported_feature "non-literal value expression")

  -- `u64::try_from` of the limit
  abbrev limit_of : SqlValue → Result ProxyError ℕ
  limit_of (SqlValue.integer (pos n)) = ok n
  limit_of (SqlValue.integer (negsuc n)) = err (invalid_input "LIMIT must be non-negative")
  limit_of v = err (invalid_input "LIMIT must be a non-negative integer literal")

  -- `parse_limit`
  unfoldable pub parse_limit : Expr → Result ProxyError ℕ
  parse_limit e = parse_value e >>= limit_of

  module _ (collection : String) (schema : SchemaProfile) where
    -- The comparison of `parse_predicate`.
    unfoldable pub parse_comparison : Expr → BinaryOperator → Expr → Result ProxyError Predicate
    parse_comparison left op right = do
      path ← resolve_expression_field left collection schema
      operator ← parse_comparison_operator op
      v ← parse_value right
      ok (compare path operator v)

    -- `parse_predicate`
    unfoldable pub parse_predicate : Expr → Result ProxyError Predicate
    unfolding parse_comparison
    parse_predicate (Expr.nested e) = parse_predicate e
    parse_predicate (Expr.binary_op left BinaryOperator.and right) = do
      p ← parse_predicate left
      q ← parse_predicate right
      ok (Predicate.and (Plan.cons p (Plan.cons q Plan.nil)))
    parse_predicate (Expr.binary_op left BinaryOperator.or right) = do
      p ← parse_predicate left
      q ← parse_predicate right
      ok (Predicate.or (Plan.cons p (Plan.cons q Plan.nil)))
    parse_predicate (Expr.binary_op left op right) = parse_comparison left op right
    parse_predicate (Expr.in_list e list negated) = do
      path ← resolve_expression_field e collection schema
      values ← traverse parse_value (exprs list)
      ok (in_list path values negated)
    parse_predicate (Expr.is_null e) = do
      path ← resolve_expression_field e collection schema
      ok (is_null path false)
    parse_predicate (Expr.is_not_null e) = do
      path ← resolve_expression_field e collection schema
      ok (is_null path true)
    parse_predicate e = err (unsupported_feature "WHERE expression")
