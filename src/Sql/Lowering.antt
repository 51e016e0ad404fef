-- ===== src/Sql/Lowering.antt =====
-- crates/sql-engine/src/lowering.rs. The parser of the sqlparser crate and how the standard library
-- reads an `f64` are parameters; a parser's error is its text.
pub mod Router
pub mod Known
pub mod Sound
pub mod Bound
pub mod Routed
use Prim.Native.String
use mongres.Prelude.{
  ℕ, String, Bool, true, false, not, ◌||◌, List, [], ◌∷◌, Option, none, some, length, ◌==◌,
  if◌then◌else◌,
}
use mongres.F64.{F64}
use mongres.Order.Text.{text_ord}
use mongres.BTree.{get}
use mongres.Common.{Result, ok, err, ◌>>=◌, ◌>>◌, ProxyError, proxy_error, ErrorKind}
use mongres.Common.Results.{traverse, transpose, try_for_each, ok_or}
use mongres.Schema.{FieldPath, SchemaProfile}
use mongres.Plan.{
  SqlValue, Predicate, ProjectedField, Projection, AssignmentPlan, StatementPlan, select, insert,
  update, delete,
}
use mongres.TypePolicy.{
  invalid_input, validate_read_predicate, validate_write_predicate, validate_write_value,
}
use mongres.Binding.{validate_row}
use mongres.Sql.{unsupported_feature}
use mongres.Sql.Ast.{
  Ident, Expr, TableWithJoins, SelectItem, GroupByExpr, Select, SetExpr, Query, Insert,
  AssignmentTarget, Assignment, Update, FromTable, Delete, Statement,
}
use mongres.Sql.Resolve.{
  collection_name_from_object_name, collection_name_from_table_with_joins,
  collection_from_table_with_joins, collection_from_object_name, resolve_field,
  resolve_expression_field, resolve_insert_column, parse_value, parse_limit, parse_predicate,
}

-- `if test { return Err(error) }`
unfoldable pub reject_if : Bool → ProxyError → Result ProxyError (Unit {0})
reject_if true e = err e
reject_if false e = ok tt

abbrev pub is_nil : {A : Type 0} → List A → Bool
is_nil [] = true
is_nil (x ∷ xs) = false

abbrev pub is_some : {A : Type 0} → Option A → Bool
is_some none = false
is_some (some a) = true

-- `let [table] = tables else { return Err(error) }`
abbrev pub the_table : List TableWithJoins → ProxyError → Result ProxyError TableWithJoins
the_table (table ∷ []) e = ok table
the_table tables e = err e

-- `let SetExpr::Select(select) = query.body`
abbrev pub body_select : SetExpr → Result ProxyError Select
body_select (SetExpr.select s) = ok s
body_select body = err (unsupported_feature "subqueries, VALUES, or set operations")

abbrev pub one_from_table : ProxyError
one_from_table = unsupported_feature "queries without exactly one FROM table"

abbrev pub from_tables : FromTable → List TableWithJoins
from_tables (FromTable.with_from_keyword tables) = tables
from_tables (FromTable.without_keyword tables) = tables

-- `collection_name_from_query`
unfoldable pub collection_name_from_query : Query → Result ProxyError String
collection_name_from_query q = do
  s ← body_select q.body
  table ← the_table s.tables one_from_table
  collection_name_from_table_with_joins table

-- `collection_name_from_statement`
unfoldable pub collection_name_from_statement : Statement → Result ProxyError String
unfolding collection_name_from_query
collection_name_from_statement (Statement.query q) = collection_name_from_query q
collection_name_from_statement (Statement.insert i) = collection_name_from_object_name i.table_name
collection_name_from_statement (Statement.update u) = collection_name_from_table_with_joins u.table
collection_name_from_statement (Statement.delete d) = do
  table ← the_table (from_tables d.source) (unsupported_feature "multi-table DELETE")
  collection_name_from_table_with_joins table
collection_name_from_statement Statement.other = err (unsupported_feature "statement type")

abbrev pub grouped : GroupByExpr → Bool
grouped GroupByExpr.all = true
grouped (GroupByExpr.expressions some_expressions some_modifiers) =
    some_expressions || some_modifiers

-- `validate_select_shape`
unfoldable pub validate_select_shape : Select → Result ProxyError (Unit {0})
validate_select_shape s =
    reject_if
      (s.has_distinct
        || (s.has_top
            || (s.has_into
                || (s.has_lateral_views
                    || (s.has_prewhere
                        || (grouped s.group_by
                            || (s.has_cluster_by
                                || (s.has_distribute_by
                                    || (s.has_sort_by
                                        || (s.has_having
                                            || (s.has_named_window
                                                || (s.has_qualify || s.has_connect_by))))))))))))
      (unsupported_feature "SELECT clause")

-- `collection_from_select`
unfoldable pub collection_from_select : Select → String → Result ProxyError String
collection_from_select s expected = do
  table ← the_table s.tables one_from_table
  collection_from_table_with_joins table expected

module _ (collection : String) (schema : SchemaProfile) where
  -- One item of `parse_projection`.
  unfoldable pub projected_field : SelectItem → Result ProxyError ProjectedField
  projected_field (SelectItem.unnamed_expr e) = do
    path ← resolve_expression_field e collection schema
    ok (record { path = path; alias = none })
  projected_field (SelectItem.expr_with_alias e alias) = do
    path ← resolve_expression_field e collection schema
    ok (record { path = path; alias = some alias.value })
  projected_field item = err (unsupported_feature "mixed or qualified wildcard projection")

  -- `parse_projection`
  unfoldable pub parse_projection : List SelectItem → Result ProxyError Projection
  unfolding projected_field
  parse_projection (SelectItem.wildcard ∷ []) = ok Projection.all
  parse_projection items = do fields ← traverse projected_field items; ok (Projection.fields fields)

-- `VALUES` rows of `parse_insert`
abbrev pub value_rows : SetExpr → Result ProxyError (List (List Expr))
value_rows (SetExpr.values []) = err (invalid_input "INSERT requires at least one VALUES row")
value_rows (SetExpr.values (row ∷ rows)) = ok (row ∷ rows)
value_rows body = err (unsupported_feature "INSERT ... SELECT")

module _ (parse_f64 : String → Option F64) where
  -- One row of `parse_insert`.
  unfoldable pub parse_row :
      List FieldPath → SchemaProfile → List Expr → Result ProxyError (List SqlValue)
  parse_row columns schema row = do
    reject_if (not (length row == length columns))
        (invalid_input "each INSERT VALUES row must match the number of columns")
    values ← traverse (parse_value parse_f64) row
    validate_row schema columns values
    ok values

  -- One assignment of `parse_update`.
  unfoldable pub assign_to :
      String → SchemaProfile → AssignmentTarget → Expr → Result ProxyError AssignmentPlan
  assign_to collection schema (AssignmentTarget.column_name target) e = do
    path ← resolve_field target collection schema
    v ← parse_value parse_f64 e
    ok (record { path = path; value = v })
  assign_to collection schema AssignmentTarget.tuple e =
      err (unsupported_feature "tuple UPDATE assignment")

  abbrev pub parse_assignment :
      String → SchemaProfile → Assignment → Result ProxyError AssignmentPlan
  parse_assignment collection schema a = assign_to collection schema a.target a.value

  -- The filter of a statement that must have one.
  unfoldable pub required_filter :
      Option Expr → ProxyError → String → SchemaProfile → Result ProxyError Predicate
  required_filter selection missing collection schema = do
    e ← ok_or selection missing
    parse_predicate parse_f64 collection schema e

  module _ (expected : String) (schema : SchemaProfile) where
    -- `parse_select`
    unfoldable pub parse_select : Query → Result ProxyError StatementPlan
    parse_select q = do
      reject_if
          (q.has_with
            || (q.has_order_by
                || (q.has_offset
                    || (q.has_fetch
                        || (q.has_limit_by
                            || (q.has_locks
                                || (q.has_for_clause
                                    || (q.has_settings || q.has_format_clause))))))))
          (unsupported_feature "query modifiers")
      s ← body_select q.body
      validate_select_shape s
      collection ← collection_from_select s expected
      projection ← parse_projection collection schema s.projection
      filter ← transpose (parse_predicate parse_f64 collection schema) s.selection
      checked ← transpose (λ p. validate_read_predicate p schema) filter
      limit ← transpose (parse_limit parse_f64) q.limit
      ok (
          select (record {
            collection = collection;
            projection = projection;
            filter = filter;
            limit = limit;
          }))

    -- `parse_insert`
    unfoldable pub parse_insert : Insert → Result ProxyError StatementPlan
    unfolding parse_row
    parse_insert i = do
      collection ← collection_from_object_name i.table_name expected
      reject_if
          (i.has_table_alias
            || (i.ignore
                || (i.overwrite
                    || (i.has_partitioned
                        || (i.has_after_columns
                            || (i.has_table_keyword
                                || (i.has_on
                                    || (i.has_returning
                                        || (i.replace_into
                                            || (i.has_priority || i.has_insert_alias))))))))))
          (unsupported_feature "INSERT modifier")
      reject_if (is_nil i.columns) (invalid_input "INSERT requires an explicit column list")
      columns ← traverse (λ c. resolve_insert_column c collection schema) i.columns
      source ← ok_or i.source (invalid_input "INSERT requires a VALUES clause")
      reject_if
          (source.has_with
            || (source.has_order_by
                || (is_some source.limit
                    || (source.has_offset
                        || (source.has_fetch || (source.has_limit_by || source.has_locks))))))
          (unsupported_feature "INSERT query modifier")
      given ← value_rows source.body
      rows ← traverse (parse_row columns schema) given
      ok (insert (record { collection = collection; columns = columns; rows = rows }))

    -- `parse_update`
    unfoldable pub parse_update : Update → Result ProxyError StatementPlan
    unfolding assign_to required_filter
    parse_update u = do
      reject_if (u.has_from || (u.has_returning || u.has_conflict))
          (unsupported_feature "UPDATE modifier")
      collection ← collection_from_table_with_joins u.table expected
      reject_if (is_nil u.assignments) (invalid_input "UPDATE requires at least one assignment")
      assignments ← traverse (parse_assignment collection schema) u.assignments
      filter ←
          required_filter u.selection (invalid_input "UPDATE requires a WHERE clause in the MVP")
            collection schema
      try_for_each (λ a. validate_write_value a.path a.value schema) assignments
      validate_write_predicate filter schema
      ok (update (record { collection = collection; assignments = assignments; filter = filter }))

    -- `parse_delete`
    unfoldable pub parse_delete : Delete → Result ProxyError StatementPlan
    unfolding required_filter
    parse_delete d = do
      reject_if
          (d.has_tables || (d.has_using || (d.has_returning || (d.has_order_by || d.has_limit))))
          (unsupported_feature "DELETE modifier")
      table ← the_table (from_tables d.source) (unsupported_feature "multi-table DELETE")
      collection ← collection_from_table_with_joins table expected
      filter ←
          required_filter d.selection (invalid_input "DELETE requires a WHERE clause in the MVP")
            collection schema
      validate_write_predicate filter schema
      ok (delete (record { collection = collection; filter = filter }))

    -- `lower_statement`
    unfoldable pub lower_statement : Statement → Result ProxyError StatementPlan
    unfolding parse_select parse_insert parse_update parse_delete
    lower_statement (Statement.query q) = parse_select q
    lower_statement (Statement.insert i) = parse_insert i
    lower_statement (Statement.update u) = parse_update u
    lower_statement (Statement.delete d) = parse_delete d
    lower_statement Statement.other = err (unsupported_feature "statement type")
