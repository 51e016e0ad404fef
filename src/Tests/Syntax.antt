-- ===== src/Tests/Syntax.antt =====
-- The test data of the SQL front end: UPDATE users SET name = $1 WHERE name = $2, as a syntax tree, and
-- the plan that it has.
use mongres.Prelude.{String, false, List, [], ◌∷◌, Option, none, some}
use mongres.F64.{F64}
use mongres.Common.{Result, ok}
use mongres.Schema.{SchemaProfile}
use mongres.Plan.{SqlValue, StatementPlan}
use mongres.Sql.Ast
use mongres.Sql.Ast.{
  Ident, ident_new, Value, Expr, BinaryOperator, TableFactor, TableWithJoins, AssignmentTarget,
  Statement,
}
use mongres.Tests.Data.{users, name_path, by_name}

abbrev pub profiles : List (String × SchemaProfile)
profiles = ("users", users) ∷ []

abbrev users_table : TableWithJoins
users_table = record {
  relation = TableFactor.table (ident_new "users" ∷ []) false;
  has_joins = false;
}

abbrev placeholder : String → Expr
placeholder p = Expr.value (Value.placeholder p)

abbrev pub rename_statement : Statement
rename_statement = Statement.update (record {
  table = users_table;
  assignments =
      record {
        target = AssignmentTarget.column_name (ident_new "name" ∷ []);
        value = placeholder "$1";
      }
      ∷ [];
  selection =
      some
        (Expr.binary_op (Expr.identifier (ident_new "name")) BinaryOperator.eq (placeholder "$2"));
  has_from = false;
  has_returning = false;
  has_conflict = false;
})

-- SELECT name FROM users
abbrev pub read_statement : Statement
read_statement = Statement.query (record {
  body = Ast.SetExpr.select (record {
    projection = Ast.SelectItem.unnamed_expr (Expr.identifier (ident_new "name")) ∷ [];
    tables = users_table ∷ [];
    selection = none;
    group_by = Ast.GroupByExpr.expressions false false;
    has_distinct = false;
    has_top = false;
    has_into = false;
    has_lateral_views = false;
    has_prewhere = false;
    has_cluster_by = false;
    has_distribute_by = false;
    has_sort_by = false;
    has_having = false;
    has_named_window = false;
    has_qualify = false;
    has_connect_by = false;
  });
  limit = none;
  has_with = false;
  has_order_by = false;
  has_offset = false;
  has_fetch = false;
  has_limit_by = false;
  has_locks = false;
  has_for_clause = false;
  has_settings = false;
  has_format_clause = false;
})

abbrev pub rename_plan : SqlValue → SqlValue → StatementPlan
rename_plan value name = StatementPlan.update (record {
  collection = "users";
  assignments = record { path = name_path; value = value } ∷ [];
  filter = by_name name;
})

abbrev pub open_rename : StatementPlan
open_rename = rename_plan (SqlValue.placeholder "$1") (SqlValue.placeholder "$2")

abbrev pub bound_rename : StatementPlan
bound_rename = rename_plan (SqlValue.string "ann") (SqlValue.string "bob")

abbrev pub names : List SqlValue
names = SqlValue.string "ann" ∷ SqlValue.string "bob" ∷ []

-- A parser that knows one statement, and a reader of `f64` that knows no number.
abbrev pub parser : Statement → String → Result String (List Statement)
parser statement sql = ok (statement ∷ [])

abbrev pub no_f64 : String → Option F64
no_f64 text = none

abbrev pub rename_sql : String
rename_sql = "UPDATE users SET name = $1 WHERE name = $2"

-- UPDATE users SET age = '42' WHERE name = 'ann'
abbrev pub age_statement : Statement
age_statement = Statement.update (record {
  table = users_table;
  assignments =
      record {
        target = AssignmentTarget.column_name (ident_new "age" ∷ []);
        value = Expr.value (Value.single_quoted_string "42");
      }
      ∷ [];
  selection = some (
      Expr.binary_op (Expr.identifier (ident_new "name")) BinaryOperator.eq
        (Expr.value (Value.single_quoted_string "ann")));
  has_from = false;
  has_returning = false;
  has_conflict = false;
})

abbrev pub age_sql : String
age_sql = "UPDATE users SET age = '42' WHERE name = 'ann'"
