-- ===== src/Tests/Boundary.antt =====
-- Parameters, prepared statements, authentication and redaction at concrete inputs.
use mongres.Prelude.{
  ℕ, String, Bool, true, false, ◌≡◌, refl, some, none, List, [], ◌∷◌, Option, arith,
}
use mongres.Prelude.Int.{ℤ}
use mongres.F64.{}
use mongres.Common.{ok, err, Result, ErrorKind}
use mongres.Text.Decimal.{to_string}
use mongres.Schema.{FieldPath, SchemaProfile}
use mongres.Plan.{SqlValue, StatementPlan, Projection}
use mongres.TypePolicy.{validate_write_value}
use mongres.Binding.{maximum_placeholder_index}
use mongres.Sql.Lowering.Router.{parse_sql_for_profiles}
use mongres.Proxy.PgType.{PgType}
use mongres.Proxy.Parameters.{Readers, FieldFormat, decode_parameter}
use mongres.Proxy.Parameters.Compatible.{decode_parameter-validate_write_value}
use mongres.Proxy.Parameters.RoundTrip.{to_be_bytes, decode_parameter-to_be_bytes}
use mongres.Proxy.Statement.{PreparedStatement}
use mongres.Proxy.Statement.Counted.{prepare_statement-length}
use mongres.Proxy.Auth.{ClientApi, Message, after}
use mongres.Proxy.Auth.Password.{HadPassword, after-HadPassword}
use mongres.Proxy.Redaction.{redact_sql_literals}
use mongres.Proxy.Redaction.Independent.{redact_sql_literals-literal}
use mongres.Tests.Data.{users, name_path}
use mongres.Tests.Syntax.{rename_sql, profiles, rename_statement, parser, no_f64}

abbrev readers : Readers
readers = record {
  from_utf8 = λ bytes. some "-7";
  parse_f32 = λ s. none;
  widen = λ bits. record { bits = bits };
  parse_f64 = no_f64;
}

abbrev type_name : PgType → String
type_name t = "type"

abbrev type_oid : PgType → ℕ
type_oid t = 0

decode_parameter-validate_write_value_example :
    validate_write_value name_path (SqlValue.string "-7") users ≡ ok tt
unfolding decode_parameter mongres.Proxy.Prepare.infer_field_parameter_type mongres.Schema.field
    mongres.Order.Derived.list_cmp mongres.TypePolicy.non_null_types
    mongres.Proxy.Prepare.reconcile_one
decode_parameter-validate_write_value_example =
    decode_parameter-validate_write_value readers type_name type_oid name_path users 0
      PgType.varchar PgType.text PgType.varchar (some (0x2d ∷ 0x37 ∷ [])) FieldFormat.text
      (SqlValue.string "-7") refl refl refl

decode_parameter-to_be_bytes_example :
    (decode_parameter readers type_name type_oid
        (some (to_be_bytes (ℤ.negsuc 6)))
        PgType.int8
        FieldFormat.binary
      ≡ ok (SqlValue.integer (ℤ.negsuc 6)))
    × (decode_parameter readers type_name type_oid
          (some (0x2d ∷ 0x37 ∷ []))
          PgType.int8
          FieldFormat.text
        ≡ ok (SqlValue.integer (ℤ.negsuc 6)))
unfolding to_string
decode_parameter-to_be_bytes_example =
    decode_parameter-to_be_bytes readers type_name type_oid (ℤ.negsuc 6) (0x2d ∷ 0x37 ∷ [])
      (omega arith) refl

abbrev prepared_rename : PreparedStatement
prepared_rename = record { sql = rename_sql; parameter_types = PgType.text ∷ PgType.text ∷ [] }

prepare_statement-length_example :
    (plan : StatementPlan) × (parse_sql_for_profiles
        (parser rename_statement)
        no_f64
        rename_sql
        profiles
      ≡ ok plan)
    × (maximum_placeholder_index plan ≡ ok 2)
unfolding parse_sql_for_profiles mongres.Proxy.Session.is_catalog_or_session_query
    mongres.Text.is_empty mongres.Proxy.Statement.prepare_statement
    mongres.Sql.Lowering.collection_name_from_statement
    mongres.Sql.Resolve.collection_name_from_table_with_joins mongres.BTree.get
    mongres.Sql.Lowering.lower_statement mongres.Sql.Lowering.reject_if
    mongres.Sql.Resolve.collection_from_table_with_joins mongres.Common.Results.traverse
    mongres.Sql.Resolve.resolve_field mongres.Schema.field mongres.Order.Derived.list_cmp
    mongres.Sql.Resolve.parse_value mongres.Sql.Resolve.parse_predicate
    mongres.Sql.Resolve.resolve_expression_field mongres.Sql.Resolve.parse_comparison_operator
    mongres.Common.Results.try_for_each validate_write_value
    mongres.TypePolicy.validate_write_predicate
    mongres.Proxy.Statement.schema_for_plan_from_profiles mongres.Plan.collection_from_plan
    mongres.Proxy.Prepare.infer_parameter_types mongres.Common.Results.try_fold
    mongres.Proxy.Prepare.collect_value_parameter_type mongres.Binding.parse_placeholder_index
    mongres.Text.strip_prefix_char mongres.Text.Decimal.parse_usize
    mongres.Proxy.Prepare.infer_field_parameter_type mongres.TypePolicy.non_null_types
    mongres.Proxy.Prepare.collect_predicate_parameter_types mongres.BTree.insert
    mongres.Proxy.Prepare.reconcile_parameter_types mongres.Binding.validate_row
    mongres.Common.Results.transpose mongres.Proxy.PgType.same_type
    mongres.Proxy.Prepare.collect_plan_parameter_types
    mongres.Proxy.Prepare.collect_row_parameter_types
    mongres.Proxy.Prepare.compatible_parameter_type mongres.Proxy.Prepare.put_type
    mongres.Proxy.Prepare.reconcile_from mongres.Proxy.Prepare.reconcile_one
    mongres.Proxy.Prepare.type_of_observed mongres.Schema.find_field
    mongres.Sql.Lowering.Router.parse_one_statement mongres.Sql.Lowering.assign_to
    mongres.Sql.Lowering.collection_from_select mongres.Sql.Lowering.collection_name_from_query
    mongres.Sql.Lowering.parse_delete mongres.Sql.Lowering.parse_insert
    mongres.Sql.Lowering.parse_projection mongres.Sql.Lowering.parse_row
    mongres.Sql.Lowering.parse_select mongres.Sql.Lowering.parse_update
    mongres.Sql.Lowering.projected_field mongres.Sql.Lowering.required_filter
    mongres.Sql.Lowering.validate_select_shape mongres.Sql.Resolve.collection_from_object_name
    mongres.Sql.Resolve.collection_name_from_object_name mongres.Sql.Resolve.parse_comparison
    mongres.Sql.Resolve.parse_limit mongres.Sql.Resolve.parse_literal
    mongres.Sql.Resolve.parse_number mongres.Sql.Resolve.path_from
    mongres.Sql.Resolve.resolve_dotted_column mongres.Sql.Resolve.resolve_insert_column
    mongres.Sql.Resolve.strip_collection mongres.Text.Decimal.digit_char
    mongres.Text.Decimal.parse_i64 mongres.Text.Decimal.print_nat mongres.Text.contains_char
    mongres.Text.is_whitespace mongres.Text.join_dots mongres.Text.split_char mongres.Text.trim
    mongres.Text.trim_end mongres.Text.trim_start mongres.Text.Search.codes
    mongres.Text.Search.contains mongres.Text.Search.equal mongres.Text.Search.lower_codes
    mongres.Text.Search.normalized mongres.Text.Search.starts_with
    mongres.Text.Search.trim_end_matches mongres.TypePolicy.is_compatible
    mongres.TypePolicy.observed_type_name mongres.TypePolicy.validate_field_shape
    mongres.TypePolicy.validate_read_predicate mongres.TypePolicy.validate_typed
    mongres.TypePolicy.validate_value
prepare_statement-length_example =
    prepare_statement-length (parser rename_statement) no_f64 type_name rename_sql [] profiles
      prepared_rename refl refl

-- A client: whether it is ready, and the user that it named.
abbrev client : ClientApi
client = record {
  Client = Bool × Option String;
  Startup = String;
  is_ready = λ c. c.0;
  metadata_user = λ c. c.1;
  save = λ user c. (c.0, some user);
  finish = λ c. (true, c.1);
  set_authenticating = λ c. (false, c.1);
  request_password = λ c. (true, c);
  feed_failure = λ c. (true, c);
  close = λ c. (true, c);
  is_ready-save = λ s c. refl;
  is_ready-set_authenticating = λ c. refl;
  is_ready-request_password = λ c. refl;
  is_ready-feed_failure = λ c. refl;
  is_ready-close = λ c. refl;
}

abbrev login : List (Message String)
login = Message.startup "ann" ∷ Message.password (some "secret") ∷ []

after-HadPassword_example : HadPassword client "ann" "secret" (false, none) login
unfolding after
after-HadPassword_example = after-HadPassword client "ann" "secret" (false, none) login refl refl

redact_sql_literals-literal_example :
    redact_sql_literals "name = 'ann' LIMIT 1" ≡ redact_sql_literals "name = 'bob' LIMIT 1"
redact_sql_literals-literal_example =
    redact_sql_literals-literal "name = '" "ann" "bob" "' LIMIT 1" refl refl refl
