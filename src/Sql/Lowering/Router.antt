-- ===== src/Sql/Lowering/Router.antt =====
-- One statement, routed to the collection that it names.
use Prim.Native.String
use mongres.Prelude.{String, List, [], ◌∷◌, Option}
use mongres.F64.{F64}
use mongres.Order.Text.{text_ord}
use mongres.BTree.{get}
use mongres.Common.{Result, ok, err, ◌>>=◌, ProxyError, proxy_error, ErrorKind}
use mongres.Common.Results.{ok_or}
use mongres.Schema.{SchemaProfile}
use mongres.Plan.{StatementPlan}
use mongres.TypePolicy.{invalid_input}
use mongres.Sql.Ast.{Statement}
use mongres.Sql.Lowering.{collection_name_from_statement, lower_statement}

abbrev single_statement : Result String (List Statement) → Result ProxyError Statement
single_statement (err text) = err (proxy_error ErrorKind.syntax text)
single_statement (ok (statement ∷ [])) = ok statement
single_statement (ok statements) = err (invalid_input "exactly one SQL statement is required")

abbrev pub not_allowlisted : String → ProxyError
not_allowlisted collection = invalid_input (
    String.◌++◌ "collection '"
      (String.◌++◌ collection "' is not in the configured collection allowlist"))

-- `Parser::parse_sql`, and the standard library's reader of an `f64`
module _ (parse_statements : String → Result String (List Statement))
    (parse_f64 : String → Option F64) where
  -- `parse_one_statement`
  unfoldable pub parse_one_statement : String → Result ProxyError Statement
  parse_one_statement sql = single_statement (parse_statements sql)

  -- `parse_sql`
  unfoldable pub parse_sql : String → String → SchemaProfile → Result ProxyError StatementPlan
  unfolding parse_one_statement
  parse_sql sql collection schema = do
    statement ← parse_one_statement sql
    lower_statement parse_f64 collection schema statement

  -- `parse_sql_for_profiles`
  unfoldable pub parse_sql_for_profiles :
      String → List (String × SchemaProfile) → Result ProxyError StatementPlan
  unfolding parse_one_statement
  parse_sql_for_profiles sql profiles = do
    statement ← parse_one_statement sql
    collection ← collection_name_from_statement statement
    schema ← ok_or (get collection profiles) (not_allowlisted collection)
    lower_statement parse_f64 collection schema statement
