-- ===== src/Proxy/Statement.antt =====
-- `prepare_statement` of crates/proxy/src/lib.rs.
pub mod Counted
use Prim.Native.String
use mongres.Prelude.{String, Bool, true, false, List, [], ◌∷◌, Option, none, some, if◌then◌else◌}
use mongres.F64.{F64}
use mongres.Order.Text.{text_ord}
use mongres.BTree.{get}
use mongres.Common.{Result, ok, err, ◌>>=◌, ProxyError}
use mongres.Common.Results.{ok_or}
use mongres.Schema.{SchemaProfile}
use mongres.Plan.{StatementPlan, collection_from_plan}
use mongres.TypePolicy.{invalid_input}
use mongres.Sql.Ast.{Statement}
use mongres.Sql.Lowering.Router.{parse_sql_for_profiles, not_allowlisted}
use mongres.Proxy.PgType.{PgType}
use mongres.Proxy.Prepare.{infer_parameter_types, reconcile_parameter_types}
use mongres.Proxy.Session.{is_catalog_or_session_query}

-- `PreparedStatement`
pub record PreparedStatement : Type 0 where
  pub sql : String
  pub parameter_types : List PgType

-- `schema_for_plan_from_profiles`, and `schema_for_plan` of the backend
unfoldable pub schema_for_plan_from_profiles :
    StatementPlan → List (String × SchemaProfile) → Result ProxyError SchemaProfile
schema_for_plan_from_profiles plan profiles =
    ok_or (get (collection_from_plan plan) profiles) (not_allowlisted (collection_from_plan plan))

abbrev pub no_session_parameters : ProxyError
no_session_parameters =
    invalid_input "prepared statement parameters are not allowed for catalog or session queries"

module _ (parse_statements : String → Result String (List Statement))
    (parse_f64 : String → Option F64) (type_name : PgType → String) where
  abbrev session_statement : String → List PgType → Result ProxyError PreparedStatement
  session_statement query [] = ok (record { sql = query; parameter_types = [] })
  session_statement query (t ∷ requested) = err no_session_parameters

  -- `prepare_statement`
  unfoldable pub prepare_statement :
      String → List PgType → List (String × SchemaProfile) → Result ProxyError PreparedStatement
  prepare_statement query requested profiles = elim (is_catalog_or_session_query query) [
    | true ↦ session_statement query requested
    | false ↦ do
      plan ← parse_sql_for_profiles parse_statements parse_f64 query profiles
      schema ← schema_for_plan_from_profiles plan profiles
      inferred ← infer_parameter_types schema plan
      types ← reconcile_parameter_types type_name requested inferred
      ok (record { sql = query; parameter_types = types })
  ]
