-- ===== src/Proxy/Backend.antt =====
-- `ProxyBackend` of crates/proxy/src/lib.rs: how a query reaches the catalog, the executor and the
-- ambiguity gate. Its state is the audit log; the driver acts on a world. The line that a rejected
-- statement prints to the log is not modelled.
pub mod Described
pub mod Audited
pub mod Guarded
pub mod Untouched
pub mod Configured
use mongres.Prelude.{
  ℕ, String, Bool, true, false, List, [], ◌∷◌, Option, none, some, map, length, ◌==◌, if◌then◌else◌,
}
use mongres.F64.{F64}
use mongres.Order.{◌=ₖ◌}
use mongres.Order.Text.{text_ord}
use mongres.BTree.{get}
use mongres.Bson.{BsonApi}
use mongres.Common.{Result, ok, err, ◌>>=◌, ProxyError, proxy_error, ErrorKind}
use mongres.Common.Results.{ok_or}
use mongres.Schema.{SchemaProfile, FieldPath, display_name, segments}
use mongres.Plan.{
  SqlValue, ProjectedField, Projection, SelectPlan, StatementPlan, select, insert, update, delete,
}
use mongres.Binding.{bind_parameters}
use mongres.Policy.{ResolverRequest, ResolverResponse}
use mongres.Executor.Outcome.{WriteOutcome}
use mongres.Executor.Run.{Driver, execute_select, execute_write}
use mongres.Catalog.{SqlType, ColumnMetadata, CollectionCatalog}
use mongres.Catalog.Database.{project_public_collections, DatabaseCatalog, table}
use mongres.Sql.Ast.{Statement}
use mongres.Sql.Lowering.Router.{parse_sql_for_profiles}
use mongres.Proxy.Ambiguity.{
  AuditLog, ResolvedWrite, resolve_write_plan, record_execution, record_mongo_execution_failure,
}
use mongres.Proxy.Wire.{
  WireField, wire_field, WireValue, CommandResult, ExecutionResult, fields, command_result,
  BsonCase, value_from_document,
}
use mongres.Proxy.Session.{catalog_or_session_query}
use mongres.Proxy.Statement.{schema_for_plan_from_profiles, no_session_parameters}

-- `ProxyBackend`, less the database, the resolver and the audit log
pub record Backend : Type 0 where
  pub database_name : String
  pub profiles : List (String × SchemaProfile)
  pub catalog : DatabaseCatalog
  pub minimum_confidence : F64

-- `ProxyBackend::new`: the panic of the projection on a position outside `u32` is an error.
unfoldable pub new_backend : String → List (String × SchemaProfile) → F64 → Result String Backend
unfolding project_public_collections
new_backend database_name profiles minimum_confidence = do
  catalog ← project_public_collections profiles
  ok (record {
    database_name = database_name;
    profiles = profiles;
    catalog = catalog;
    minimum_confidence = minimum_confidence;
  })

-- The columns of one source path, `source_paths.len() == 1`
abbrev pub single_path : List ColumnMetadata → List ColumnMetadata
single_path [] = []
single_path (c ∷ cs) =
    let rest = single_path cs in if length c.source_paths == 1 then c ∷ rest else rest

-- `source_paths[0]`, of a column that has one
abbrev pub first_path : List FieldPath → FieldPath
first_path [] = []
first_path (path ∷ paths) = path

-- `selected_paths`
unfoldable pub selected_paths : SelectPlan → CollectionCatalog → List (List String)
selected_paths plan catalog = elim plan.projection [
  | Projection.all ↦
      map (λ (c : ColumnMetadata). segments (first_path c.source_paths))
        (single_path catalog.columns)
  | Projection.fields fs ↦ map (λ (f : ProjectedField). segments f.path) fs
]

-- `iter().find(…).map_or(Jsonb, …)`
abbrev pub type_of_column : String → List ColumnMetadata → SqlType
type_of_column name [] = SqlType.jsonb
type_of_column name (c ∷ cs) = if c.column_name =ₖ name then c.sql_type else type_of_column name cs

abbrev pub alias_or : Option String → String → String
alias_or none name = name
alias_or (some alias) name = alias

-- `select_fields`
unfoldable pub select_fields : SelectPlan → CollectionCatalog → List WireField
select_fields plan catalog = elim plan.projection [
  | Projection.all ↦
      map (λ (c : ColumnMetadata). wire_field c.column_name c.sql_type)
        (single_path catalog.columns)
  | Projection.fields fs ↦
      map
        (λ (f : ProjectedField).
          wire_field (alias_or f.alias (display_name f.path))
            (type_of_column (display_name f.path) catalog.columns))
        fs
]

-- `catalog_for_collection`
unfoldable pub catalog_for_collection :
    DatabaseCatalog → String → Result ProxyError CollectionCatalog
catalog_for_collection catalog collection = ok_or (table catalog collection) (
    proxy_error ErrorKind.dependency (
      Prim.Native.String.◌++◌ "catalog projection is missing configured collection '"
        (Prim.Native.String.◌++◌ collection "'")))

-- A SELECT's plan, as the proxy tells it from the writes
abbrev pub plan_fields : DatabaseCatalog → StatementPlan → Result ProxyError (List WireField)
plan_fields catalog (select plan) = do
  c ← catalog_for_collection catalog plan.collection
  ok (select_fields plan c)
plan_fields catalog plan = ok []

-- What a query gives, the audit log, and the world.
abbrev pub Answer : Type 0 → Type 0 → Type 0
Answer W A = Result ProxyError A × (AuditLog × W)

module _ (api : BsonApi) (view : api.Bson → BsonCase) where
  open api use {Document}

  -- `iter().zip(&fields).map(…)` for one document
  abbrev pub row_of : List (List String) → List WireField → Document → List WireValue
  row_of [] fs d = []
  row_of (path ∷ paths) [] d = []
  row_of (path ∷ paths) (f ∷ fs) d =
      value_from_document api view d path f.sql_type ∷ row_of paths fs d

  -- The result of a SELECT, once its documents are there.
  unfoldable pub query_result : SelectPlan → CollectionCatalog → List Document → ExecutionResult
  unfolding value_from_document
  query_result plan c documents =
      ExecutionResult.query (select_fields plan c)
        (map (row_of (selected_paths plan c) (select_fields plan c)) documents)

  abbrev pub read_answer :
      {W : Type 0}
      → SelectPlan
      → CollectionCatalog
      → Result ProxyError (List Document) × W
      → AuditLog
      → Answer W ExecutionResult
  read_answer plan c (ok documents, w) log = (ok (query_result plan c documents), (log, w))
  read_answer plan c (err e, w) log = (err e, (log, w))

abbrev pub command_answer : StatementPlan → WriteOutcome → Result ProxyError ExecutionResult
command_answer plan outcome = elim (command_result plan outcome) [
  | ok c ↦ ok (ExecutionResult.command c)
  | err panic ↦ err (proxy_error ErrorKind.feature_not_supported panic)
]

-- `execute_plan` of a write, after `execute_write`
unfoldable pub written_answer :
    {W : Type 0}
    → SchemaProfile
    → ResolvedWrite
    → Result ProxyError WriteOutcome × W
    → AuditLog
    → Answer W ExecutionResult
written_answer schema resolved (ok outcome, w) log = (
  command_answer resolved.plan outcome,
  (record_execution schema resolved.audit_context outcome log, w),
)
written_answer schema resolved (err e, w) log =
    (err e, (record_mongo_execution_failure schema resolved.audit_context log, w))

module _ (api : BsonApi) (view : api.Bson → BsonCase) (driver : Driver api)
    (resolve : ResolverRequest → Result ProxyError ResolverResponse) (show_f64 : F64 → String)
    (scaled : F64 → Option ℕ) (parse_statements : String → Result String (List Statement))
    (parse_f64 : String → Option F64) (backend : Backend) where
  open api use {Bson}
  open driver use {World}

  -- `execute_select`
  unfoldable pub answer_select : SelectPlan → AuditLog → World → Answer World ExecutionResult
  unfolding query_result
  answer_select plan log w =
      elim (catalog_for_collection backend.catalog plan.collection)
        as (λ _. Answer World ExecutionResult) [
          | err e ↦ (err e, (log, w))
          | ok c ↦ read_answer api view plan c (execute_select api driver plan w) log
        ]

  -- `execute_plan` of a write, after `resolve_write_plan`
  unfoldable pub resolved_answer :
      SchemaProfile
      → Result ProxyError ResolvedWrite × AuditLog
      → World
      → Answer World ExecutionResult
  unfolding written_answer
  resolved_answer schema (ok resolved, log) w =
      written_answer schema resolved (execute_write api driver resolved.plan w) log
  resolved_answer schema (err e, log) w = (err e, (log, w))

  -- `execute_plan` of a write
  unfoldable pub answer_write : StatementPlan → AuditLog → World → Answer World ExecutionResult
  unfolding resolved_answer
  answer_write plan log w =
      elim (schema_for_plan_from_profiles plan backend.profiles)
        as (λ _. Answer World ExecutionResult) [
          | err e ↦ (err e, (log, w))
          | ok schema ↦
              resolved_answer schema
                (resolve_write_plan resolve show_f64 scaled plan schema backend.minimum_confidence
                  log)
                w
        ]

  -- `execute_plan`
  unfoldable pub execute_plan : StatementPlan → AuditLog → World → Answer World ExecutionResult
  unfolding answer_select answer_write
  execute_plan (select plan) log w = answer_select plan log w
  execute_plan plan log w = answer_write plan log w

  abbrev pub run_plan :
      Result ProxyError StatementPlan → AuditLog → World → Answer World ExecutionResult
  run_plan (ok plan) log w = execute_plan plan log w
  run_plan (err e) log w = (err e, (log, w))

  -- `execute`
  unfoldable pub execute : String → AuditLog → World → Answer World ExecutionResult
  unfolding execute_plan
  execute query log w =
      elim (catalog_or_session_query backend.database_name backend.catalog query)
        as (λ _. Answer World ExecutionResult) [
          | some result ↦ (ok result, (log, w))
          | none ↦
              run_plan (parse_sql_for_profiles parse_statements parse_f64 query backend.profiles)
                log w
        ]

  abbrev pub session_result : ExecutionResult → List SqlValue → Result ProxyError ExecutionResult
  session_result result [] = ok result
  session_result result (p ∷ parameters) = err no_session_parameters

  -- The plan of a bound statement
  unfoldable pub bound_plan : String → List SqlValue → Result ProxyError StatementPlan
  bound_plan query parameters = do
    plan ← parse_sql_for_profiles parse_statements parse_f64 query backend.profiles
    schema ← schema_for_plan_from_profiles plan backend.profiles
    bind_parameters plan parameters schema

  -- `execute_bound`
  unfoldable pub execute_bound :
      String → List SqlValue → AuditLog → World → Answer World ExecutionResult
  unfolding execute_plan bound_plan
  execute_bound query parameters log w =
      elim (catalog_or_session_query backend.database_name backend.catalog query)
        as (λ _. Answer World ExecutionResult) [
          | some result ↦ (session_result result parameters, (log, w))
          | none ↦ run_plan (bound_plan query parameters) log w
        ]

  -- `describe`
  unfoldable pub describe : String → Result ProxyError (List WireField)
  describe query =
      elim (catalog_or_session_query backend.database_name backend.catalog query)
        as (λ _. Result ProxyError (List WireField)) [
          | some result ↦ ok (fields result)
          | none ↦ do
            plan ← parse_sql_for_profiles parse_statements parse_f64 query backend.profiles
            plan_fields backend.catalog plan
        ]
