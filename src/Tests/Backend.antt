-- ===== src/Tests/Backend.antt =====
-- The backend of the proxy at concrete inputs.
use mongres.Prelude.{ℕ, String, true, false, ◌≡◌, refl, subst, some, none, List, [], ◌∷◌, length}
use mongres.F64.{one_f64}
use mongres.Bson.Concrete.{concrete, Value}
use mongres.Common.{ok, err, Result, ErrorKind}
use mongres.Schema.{FieldPath, SchemaProfile}
use mongres.Plan.{SqlValue, StatementPlan, Projection}
use mongres.Policy.{ResolutionCandidate}
use mongres.Binding.{maximum_placeholder_index}
use mongres.Sql.Lowering.Router.{parse_sql_for_profiles}
use mongres.Catalog.{SqlType, ColumnMetadata}
use mongres.Proxy.Statement.{PreparedStatement}
use mongres.Proxy.Wire.{WireField, wire_field, WireValue, ExecutionResult, fields, BsonCase}
use mongres.Proxy.Backend.Configured.{describe_total}
use mongres.Proxy.Backend.{Backend, new_backend, describe, execute, execute_bound}
use mongres.Proxy.Backend.Described.{IsRectangular, execute_bound-describe}
use mongres.Proxy.Backend.Audited.{LogIsSound}
use mongres.Proxy.Backend.Audited.Reached.{Reach, here, next, simple, Reach-LogIsSound}
use mongres.Policy.Audit.{AuditOperation, redact, executed}
use mongres.Proxy.Ambiguity.{AuditLog}
use mongres.Proxy.Backend.Guarded.{guarded, execute_bound-guarded}
use mongres.Proxy.Backend.Untouched.{AnswerLeavesAlone, execute_bound-LeavesAlone}
use mongres.Executor.Run.{Driver}
use mongres.Tests.Data.{ambiguity, age, name_path, show, scale, answer, no_records}
use mongres.Tests.Syntax.{
  age_statement, age_sql, rename_sql, profiles, rename_statement, read_statement, names, parser,
  no_f64,
}

-- A database with one user, which counts the writes.
abbrev one_user : Driver concrete
one_user = record {
  World = ℕ;
  find = λ collection filter projection limit w.
      (ok (concrete.insert "name" (Value.string "ann") concrete.empty ∷ []), w);
  insert_one = λ collection d w. (ok tt, w);
  insert_many = λ collection ds w. (ok (length ds), w);
  update_many = λ collection filter set w. (ok (1, 1), w);
  delete_many = λ collection filter w. (ok 1, w);
}

abbrev view : Value → BsonCase
view (Value.string s) = BsonCase.string s
view v = BsonCase.null

abbrev backend : Backend
backend = record {
  database_name = "app";
  profiles = profiles;
  catalog =
      (
        "users",
        record {
          table = record { schema_name = "public"; table_name = "users" };
          columns =
              record {
                table = record { schema_name = "public"; table_name = "users" };
                column_name = "name";
                ordinal_position = 1;
                is_nullable = false;
                sql_type = SqlType.text;
                ambiguous = false;
                source_paths = name_path ∷ [];
              }
              ∷ [];
        },
      )
      ∷ [];
  minimum_confidence = one_f64;
}

abbrev parse : ResolutionCandidate
parse = ResolutionCandidate.parse_integer_losslessly

abbrev read_sql : String
read_sql = "SELECT name FROM users"

abbrev name_fields : List WireField
name_fields = wire_field "name" SqlType.text ∷ []

abbrev one_row : ExecutionResult
one_row = ExecutionResult.query name_fields ((WireValue.text "ann" ∷ []) ∷ [])

execute_bound-describe_example : (fields one_row ≡ name_fields) × IsRectangular one_row
unfolding execute_bound fields IsRectangular mongres.Proxy.Backend.describe
    mongres.Proxy.Session.catalog_or_session_query mongres.Proxy.Session.answer_if
    mongres.Text.is_empty parse_sql_for_profiles mongres.Sql.Lowering.collection_name_from_statement
    mongres.Sql.Resolve.collection_name_from_table_with_joins mongres.BTree.get
    mongres.Sql.Lowering.lower_statement mongres.Sql.Lowering.reject_if
    mongres.Sql.Lowering.validate_select_shape mongres.Sql.Lowering.collection_from_select
    mongres.Sql.Resolve.collection_from_table_with_joins mongres.Sql.Lowering.parse_projection
    mongres.Common.Results.traverse mongres.Sql.Resolve.resolve_expression_field
    mongres.Sql.Resolve.resolve_field mongres.Schema.field mongres.Order.Derived.list_cmp
    mongres.Common.Results.transpose mongres.Proxy.Backend.catalog_for_collection
    mongres.Proxy.Backend.select_fields mongres.Text.join_dots
    mongres.Proxy.Statement.schema_for_plan_from_profiles mongres.Plan.collection_from_plan
    mongres.Binding.bind_parameters maximum_placeholder_index mongres.Binding.bind_plan
    mongres.Binding.validate_bound_plan mongres.Executor.Run.execute_select
    mongres.Executor.Run.before mongres.Executor.filter_document
    mongres.Executor.projection_document mongres.Executor.mongo_field_name
    mongres.Schema.is_literal_dotted_key mongres.Executor.Run.finish
    mongres.Proxy.Backend.selected_paths
execute_bound-describe_example =
    execute_bound-describe concrete view one_user (answer parse) show scale (parser read_statement)
      no_f64 backend read_sql [] no_records 0 name_fields one_row refl refl

-- The record of the write of 42 in place of '42', which the resolver has picked.
abbrev executed_log : AuditLog
executed_log = record {
  poisoned = false;
  records =
      record {
        schema_profile_version = 1;
        operation = AuditOperation.update;
        ambiguities = redact ambiguity ∷ [];
        allowed_candidates =
            ResolutionCandidate.keep_string ∷ parse ∷ ResolutionCandidate.reject ∷ [];
        selected_candidate = some parse;
        confidence = some (record { basis_points = 10000 });
        outcome = executed (record { matched = 1; modified = 1; inserted = 0; deleted = 0 });
      }
      ∷ [];
}

execute-executed_log :
    (execute concrete view one_user
      (answer parse)
      show
      scale
      (parser age_statement)
      no_f64
      backend
      age_sql
      no_records
      0).1
    ≡ (executed_log, 0)
unfolding execute mongres.Proxy.Session.catalog_or_session_query mongres.Proxy.Session.answer_if
    parse_sql_for_profiles mongres.Sql.Lowering.collection_name_from_statement
    mongres.Sql.Resolve.collection_name_from_table_with_joins mongres.BTree.get
    mongres.Sql.Lowering.lower_statement mongres.Sql.Lowering.reject_if
    mongres.Sql.Resolve.collection_from_table_with_joins mongres.Common.Results.traverse
    mongres.Sql.Resolve.resolve_field mongres.Sql.Resolve.parse_value
    mongres.Sql.Resolve.parse_predicate mongres.Sql.Resolve.resolve_expression_field
    mongres.Binding.validate_bound_plan mongres.Proxy.Statement.schema_for_plan_from_profiles
    mongres.Plan.collection_from_plan mongres.Executor.Run.before mongres.Executor.Run.finish
    mongres.Executor.Run.execute_write mongres.Executor.Run.execute_update
    mongres.Executor.predicate_document mongres.Executor.mongo_field_name
    mongres.Executor.bson_value mongres.Executor.Update.update_document
    mongres.Proxy.Ambiguity.record_execution mongres.Proxy.Ambiguity.resolve_write_plan
    mongres.Policy.Detect.detect_write_ambiguities mongres.BTree.add mongres.BTree.extend
    mongres.Order.Derived.list_cmp mongres.Policy.Detect.ambiguity_for_path mongres.Schema.field
    mongres.TypePolicy.non_null_types mongres.Policy.Detect.write_operation
    mongres.Proxy.Ambiguity.has_executable_candidate mongres.Policy.Contract.resolver_request
    mongres.Policy.Candidates.allowed_candidates
    mongres.Policy.Candidates.mixed_type_assignment_value
    mongres.Policy.Candidates.predicate_references_path
    mongres.Policy.Candidates.parse_integer_losslessly mongres.Text.Decimal.parse_i64
    mongres.BTree.contains mongres.F64.is_finite mongres.F64.less
    mongres.Policy.Apply.apply_candidate mongres.Policy.Apply.apply_resolution
    mongres.Policy.Apply.join_commas mongres.Policy.Apply.retype_update_assignment
    mongres.Policy.Apply.retype_update_assignment_as_string
    mongres.Policy.Apply.unresolved_write_error mongres.Policy.Apply.write_plan_references_path
    mongres.Policy.Audit.from_basis_points mongres.Policy.Audit.from_ratio
    mongres.Policy.Candidates.is_mixed_scalar mongres.Policy.Candidates.nested_path_is_safe
    mongres.Policy.Candidates.validate_resolution mongres.Policy.Contract.find_assignment
    mongres.Policy.Contract.is_malformed mongres.Policy.Contract.observed_shape_name
    mongres.Policy.Contract.observed_type_name mongres.Policy.Contract.position
    mongres.Policy.Contract.validate_resolver_response mongres.Policy.Contract.value_evidence
    mongres.Policy.Contract.write_value_evidence mongres.Policy.Detect.ambiguity_kinds
    mongres.Policy.Detect.collect_predicate_paths mongres.Policy.Detect.detect_paths
    mongres.Policy.Detect.written_paths mongres.Proxy.Ambiguity.accept
    mongres.Proxy.Ambiguity.record_blocked mongres.Proxy.Ambiguity.record_entry
    mongres.Proxy.Ambiguity.resolve_single_ambiguity mongres.Proxy.Ambiguity.validation_failure
    mongres.Schema.find_field mongres.Text.Decimal.digit_char mongres.Text.Decimal.print_nat
    mongres.Text.Decimal.to_string mongres.Text.contains_char mongres.Text.is_empty
    mongres.Text.join_dots mongres.Text.take_chars mongres.Schema.is_literal_dotted_key
    mongres.Sql.Resolve.parse_comparison_operator mongres.Common.Results.try_for_each
    mongres.TypePolicy.validate_write_value mongres.TypePolicy.validate_write_predicate
    mongres.Text.starts_with_char
execute-executed_log = refl

Reach-LogIsSound_example : LogIsSound profiles executed_log
Reach-LogIsSound_example =
    Reach-LogIsSound concrete view one_user show scale (parser age_statement) no_f64 backend false 0
      (executed_log, 0)
      (subst
        (Reach concrete view one_user show scale (parser age_statement) no_f64 backend
          (no_records, 0))
        execute-executed_log (next here (simple (answer parse) age_sql no_records 0)))

execute_bound-guarded_example :
    execute_bound concrete view
      (guarded concrete one_user profiles)
      (answer parse)
      show
      scale
      (parser rename_statement)
      no_f64
      backend
      rename_sql
      names
      no_records
      0
    ≡ execute_bound concrete view one_user
        (answer parse)
        show
        scale
        (parser rename_statement)
        no_f64
        backend
        rename_sql
        names
        no_records
        0
execute_bound-guarded_example =
    execute_bound-guarded concrete view one_user (answer parse) show scale (parser rename_statement)
      no_f64 backend rename_sql names no_records 0

execute_bound-LeavesAlone_example :
    AnswerLeavesAlone
      (execute_bound concrete view one_user
        (answer parse)
        show
        scale
        (parser rename_statement)
        no_f64
        backend
        rename_sql
        []
        no_records
        0)
      0
execute_bound-LeavesAlone_example =
    execute_bound-LeavesAlone concrete view one_user (answer parse) show scale
      (parser rename_statement) no_f64 backend rename_sql [] no_records 0

abbrev users_columns : List ColumnMetadata
users_columns =
    record {
      table = record { schema_name = "public"; table_name = "users" };
      column_name = "age";
      ordinal_position = 1;
      is_nullable = false;
      sql_type = SqlType.jsonb;
      ambiguous = true;
      source_paths = age ∷ [];
    }
    ∷ record {
      table = record { schema_name = "public"; table_name = "users" };
      column_name = "name";
      ordinal_position = 2;
      is_nullable = false;
      sql_type = SqlType.text;
      ambiguous = false;
      source_paths = name_path ∷ [];
    }
    ∷ []

abbrev made_backend : Backend
made_backend = record {
  database_name = "app";
  profiles = profiles;
  catalog =
      (
        "users",
        record {
          table = record { schema_name = "public"; table_name = "users" };
          columns = users_columns;
        },
      )
      ∷ [];
  minimum_confidence = one_f64;
}

abbrev read_plan : StatementPlan
read_plan = StatementPlan.select (record {
  collection = "users";
  projection = Projection.fields (record { path = name_path; alias = none } ∷ []);
  filter = none;
  limit = none;
})

made : new_backend "app" profiles one_f64 ≡ ok made_backend
unfolding new_backend mongres.Catalog.project_collection mongres.BTree.insert mongres.Text.join_dots
    mongres.Catalog.column_from_fields mongres.BTree.get mongres.BTree.contains
    mongres.Schema.is_ambiguous mongres.BTree.extend
made = refl

routed : parse_sql_for_profiles (parser read_statement) no_f64 read_sql profiles ≡ ok read_plan
unfolding parse_sql_for_profiles mongres.Sql.Lowering.collection_name_from_statement
    mongres.Sql.Resolve.collection_name_from_table_with_joins mongres.BTree.get
    mongres.Sql.Lowering.lower_statement mongres.Sql.Lowering.reject_if
    mongres.Sql.Lowering.validate_select_shape mongres.Sql.Lowering.collection_from_select
    mongres.Sql.Resolve.collection_from_table_with_joins mongres.Sql.Lowering.parse_projection
    mongres.Common.Results.traverse mongres.Sql.Resolve.resolve_expression_field
    mongres.Sql.Resolve.resolve_field mongres.Schema.field mongres.Order.Derived.list_cmp
    mongres.Common.Results.transpose
routed = refl

describe_total_example :
    (fs : List WireField) × (describe concrete view one_user
        (answer parse)
        show
        scale
        (parser read_statement)
        no_f64
        made_backend
        read_sql
      ≡ ok fs)
describe_total_example =
    describe_total concrete view one_user (answer parse) show scale (parser read_statement) no_f64
      "app" read_sql profiles one_f64 made_backend read_plan made routed
