-- ===== src/Sql/Lowering/Sound.antt =====
-- What a lowered plan guarantees to its users.
use mongres.Prelude.{
  String, false, List, [], ◌∷◌, Option, ◌≡◌, ◌≢◌, refl, arith, Bool-cases, inl, inr, length,
}
use mongres.F64.{F64}
use mongres.Common.{Result, ok, ProxyError}
use mongres.Common.Results.{
  >>=-eq-ok, ok_injective, traverse, traverse-All, length-traverse, transpose, try_for_each,
  All-try_for_each, ok_or,
}
use mongres.Schema.{SchemaProfile}
use mongres.Plan.{StatementPlan, select, insert, update, delete, collection_from_plan}
use mongres.Binding.{validate_row, validate_bound_plan}
use mongres.Sql.Ast.{SetExpr, Query, Insert, Update, Delete, Statement, Expr}
use mongres.Sql.Resolve.{parse_predicate}
use mongres.Sql.Resolve.Known.{PathIsKnown, resolve_insert_column-PathIsKnown}
use mongres.Sql.Lowering.{
  reject_if, parse_projection, parse_row, parse_assignment, required_filter, parse_select,
  parse_insert, parse_update, parse_delete, lower_statement,
}
use mongres.Sql.Ast.{TableWithJoins, Select, ObjectName}
use mongres.Sql.Resolve.{
  matching, collection_from_table_with_joins, collection_from_object_name, parse_limit,
  resolve_insert_column, collection_name_from_table_with_joins, collection_name_from_object_name,
}
use mongres.Sql.Lowering.{
  the_table, is_nil, body_select, one_from_table, from_tables, value_rows, collection_from_select,
  validate_select_shape,
}
use mongres.TypePolicy.{validate_read_predicate, validate_write_predicate, validate_write_value}
use mongres.Sql.Lowering.Known.{
  accepted, PlanIsKnown, HasShape, parse_projection-ProjectionIsKnown, FilterIsKnown-transpose,
  required_filter-PredicateIsKnown, assign_to-PathIsKnown, parse_row_lem,
}
use mongres.Order.{◌=ₖ◌, =ₖ_sound}
use mongres.Order.Text.{text_ord}

-- The plan is on the collection, on known fields, in shape, and its values suit their fields.
pub record IsLowered (schema : SchemaProfile) (collection : String) (plan : StatementPlan)
    : Type 0 where
  pub on_collection : collection_from_plan plan ≡ collection
  pub known : PlanIsKnown schema plan
  pub shaped : HasShape plan
  pub valid : validate_bound_plan plan schema ≡ ok tt

matching_lem :
    (expected collection out : String) → matching expected collection ≡ ok out → out ≡ expected
matching_lem expected collection out h = elim (Bool-cases (collection =ₖ expected)) [
  | inl same ↦ ground (arith, same, =ₖ_sound collection expected same)
  | inr other ↦ absurd (ground (arith, other))
]

from_table_lem :
    (table : TableWithJoins) (expected out : String)
    → collection_from_table_with_joins table expected ≡ ok out
    → out ≡ expected
unfolding collection_from_table_with_joins
from_table_lem table expected out h =
    let (c, named, h') = >>=-eq-ok (collection_name_from_table_with_joins table) _ h in
    matching_lem expected c out h'

from_object_lem :
    (name : ObjectName) (expected out : String)
    → collection_from_object_name name expected ≡ ok out
    → out ≡ expected
unfolding collection_from_object_name
from_object_lem name expected out h =
    let (c, named, h') = >>=-eq-ok (collection_name_from_object_name name) _ h in
    matching_lem expected c out h'

from_select_lem :
    (s : Select) (expected out : String)
    → collection_from_select s expected ≡ ok out
    → out ≡ expected
unfolding collection_from_select
from_select_lem s expected out h =
    let (table, one, h') = >>=-eq-ok (the_table s.tables one_from_table) _ h in
    from_table_lem table expected out h'

some_elements :
    {A B : Type 0} (f : A → Result ProxyError B) (xs : List A) (ys : List B)
    → traverse f xs ≡ ok ys
    → is_nil xs ≡ false
    → ys ≢ []
some_elements f xs ys h some_xs none_left =
    ground (arith, length-traverse f xs ys h, none_left, some_xs, xs)

some_rows :
    (body : SetExpr) (given : List (List Expr)) → value_rows body ≡ ok given → is_nil given ≡ false
some_rows (SetExpr.values []) given h = cc
some_rows (SetExpr.values (row ∷ rows)) given h =
    let same : row ∷ rows ≡ given = ok_injective h in rw (← same) refl
some_rows body given h = absurd (ground arith)

module _ (schema : SchemaProfile) (collection : String) (parse_f64 : String → Option F64) where
  parse_select-IsLowered :
      (q : Query) (plan : StatementPlan)
      → parse_select parse_f64 collection schema q ≡ ok plan
      → IsLowered schema collection plan
  unfolding parse_select validate_bound_plan collection_from_plan
  parse_select-IsLowered q plan h =
      let (_, _, h1) = >>=-eq-ok (reject_if _ _) _ h in
      let (s, _, h2) = >>=-eq-ok (body_select q.body) _ h1 in
      let (_, _, h3) = >>=-eq-ok (validate_select_shape s) _ h2 in
      let (c, on, h4) = >>=-eq-ok (collection_from_select s collection) _ h3 in
      let (projection, read, h5) = >>=-eq-ok (parse_projection c schema s.projection) _ h4 in
      let (filter, tested, h6) =
        >>=-eq-ok (transpose (parse_predicate parse_f64 c schema) s.selection) _ h5 in
      let (checked, valid, h7) =
        >>=-eq-ok (transpose (λ p. validate_read_predicate p schema) filter) _ h6 in
      let (limit, _, h8) = >>=-eq-ok (transpose (parse_limit parse_f64) q.limit) _ h7 in
      let on_collection = from_select_lem s collection c on in
      let same : select
            (record { collection = c; projection = projection; filter = filter; limit = limit })
          ≡ plan =
        ok_injective h8 in
      rw (← same) (record {
        on_collection = on_collection;
        known = (
          parse_projection-ProjectionIsKnown schema c s.projection projection read,
          FilterIsKnown-transpose schema c parse_f64 s.selection filter tested,
        );
        shaped = tt;
        valid = rw valid refl;
      })

  parse_insert-IsLowered :
      (i : Insert) (plan : StatementPlan)
      → parse_insert parse_f64 collection schema i ≡ ok plan
      → IsLowered schema collection plan
  unfolding parse_insert validate_bound_plan collection_from_plan
  parse_insert-IsLowered i plan h =
      let (c, on, h1) = >>=-eq-ok (collection_from_object_name i.table_name collection) _ h in
      let (_, _, h2) = >>=-eq-ok (reject_if _ _) _ h1 in
      let (_, some_columns, h3) = >>=-eq-ok (reject_if (is_nil i.columns) _) _ h2 in
      let (columns, found, h4) =
        >>=-eq-ok (traverse (λ j. resolve_insert_column j c schema) i.columns) _ h3 in
      let (source, _, h5) = >>=-eq-ok (ok_or i.source _) _ h4 in
      let (_, _, h6) = >>=-eq-ok (reject_if _ _) _ h5 in
      let (given, body, h7) = >>=-eq-ok (value_rows source.body) _ h6 in
      let (rows, parsed, h8) =
        >>=-eq-ok (traverse (parse_row parse_f64 columns schema) given) _ h7 in
      let same : insert (record { collection = c; columns = columns; rows = rows }) ≡ plan =
        ok_injective h8 in
      rw (← same) (record {
        on_collection = from_object_lem i.table_name collection c on;
        known =
            traverse-All (λ j. resolve_insert_column j c schema) (PathIsKnown schema)
              (λ j path e. resolve_insert_column-PathIsKnown schema j c path e) i.columns columns
              found;
        shaped = (
          some_elements _ i.columns columns found (accepted _ _ some_columns),
          some_elements _ given rows parsed (some_rows source.body given body),
          traverse-All (parse_row parse_f64 columns schema) (λ row. length row ≡ length columns)
              (λ row values e. (parse_row_lem schema c parse_f64 columns row values e).0) given rows
              parsed,
        );
        valid = All-try_for_each (validate_row schema columns) rows (
            traverse-All (parse_row parse_f64 columns schema)
              (λ row. validate_row schema columns row ≡ ok tt)
              (λ row values e. (parse_row_lem schema c parse_f64 columns row values e).1) given rows
              parsed);
      })

  parse_update-IsLowered :
      (u : Update) (plan : StatementPlan)
      → parse_update parse_f64 collection schema u ≡ ok plan
      → IsLowered schema collection plan
  unfolding parse_update validate_bound_plan collection_from_plan
  parse_update-IsLowered u plan h =
      let (_, _, h1) = >>=-eq-ok (reject_if _ _) _ h in
      let (c, on, h2) = >>=-eq-ok (collection_from_table_with_joins u.table collection) _ h1 in
      let (_, some_assignments, h3) = >>=-eq-ok (reject_if (is_nil u.assignments) _) _ h2 in
      let (assignments, set, h4) =
        >>=-eq-ok (traverse (parse_assignment parse_f64 c schema) u.assignments) _ h3 in
      let (filter, tested, h5) =
        >>=-eq-ok (required_filter parse_f64 u.selection _ c schema) _ h4 in
      let (_, writes, h6) =
        >>=-eq-ok (try_for_each (λ a. validate_write_value a.path a.value schema) assignments) _
          h5 in
      let (_, valid, h7) = >>=-eq-ok (validate_write_predicate filter schema) _ h6 in
      let same : update (record { collection = c; assignments = assignments; filter = filter })
          ≡ plan =
        ok_injective h7 in
      rw (← same) (record {
        on_collection = from_table_lem u.table collection c on;
        known = (
          traverse-All (parse_assignment parse_f64 c schema) (λ a. PathIsKnown schema a.path)
              (λ a out e. assign_to-PathIsKnown schema c parse_f64 a.target a.value out e)
              u.assignments assignments set,
          required_filter-PredicateIsKnown schema c parse_f64 u.selection _ filter tested,
        );
        shaped = some_elements _ u.assignments assignments set (accepted _ _ some_assignments);
        valid = rw (writes, valid) refl;
      })

  parse_delete-IsLowered :
      (d : Delete) (plan : StatementPlan)
      → parse_delete parse_f64 collection schema d ≡ ok plan
      → IsLowered schema collection plan
  unfolding parse_delete validate_bound_plan collection_from_plan
  parse_delete-IsLowered d plan h =
      let (_, _, h1) = >>=-eq-ok (reject_if _ _) _ h in
      let (table, _, h2) = >>=-eq-ok (the_table (from_tables d.source) _) _ h1 in
      let (c, on, h3) = >>=-eq-ok (collection_from_table_with_joins table collection) _ h2 in
      let (filter, tested, h4) =
        >>=-eq-ok (required_filter parse_f64 d.selection _ c schema) _ h3 in
      let (_, valid, h5) = >>=-eq-ok (validate_write_predicate filter schema) _ h4 in
      let same : delete (record { collection = c; filter = filter }) ≡ plan = ok_injective h5 in
      rw (← same) (record {
        on_collection = from_table_lem table collection c on;
        known = required_filter-PredicateIsKnown schema c parse_f64 d.selection _ filter tested;
        shaped = tt;
        valid = valid;
      })

  -- A statement that is lowered has a plan on the active collection; every field that the plan reads,
  -- writes or tests is in the profile; an insert has columns and rows of the columns' number, an
  -- update has assignments; and the plan passes the check that binding repeats.
  pub lower_statement-IsLowered :
      (statement : Statement) (plan : StatementPlan)
      → lower_statement parse_f64 collection schema statement ≡ ok plan
      → IsLowered schema collection plan
  unfolding lower_statement
  lower_statement-IsLowered (Statement.query q) plan h = parse_select-IsLowered q plan h
  lower_statement-IsLowered (Statement.insert i) plan h = parse_insert-IsLowered i plan h
  lower_statement-IsLowered (Statement.update u) plan h = parse_update-IsLowered u plan h
  lower_statement-IsLowered (Statement.delete d) plan h = parse_delete-IsLowered d plan h
  lower_statement-IsLowered Statement.other plan h = cc
