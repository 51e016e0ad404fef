-- ===== src/Tests/Sql.antt =====
-- The SQL front end at concrete inputs.
use mongres.Prelude.{◌≡◌, refl, some, List}
use mongres.BTree.{get}
use mongres.Order.Text.{text_ord}
use mongres.Common.{ok}
use mongres.Schema.{SchemaProfile}
use mongres.Policy.{WriteAmbiguity, WriteOperation}
use mongres.Policy.Detect.{detect_write_ambiguities}
use mongres.Sql.Lowering.Sound.{IsLowered}
use mongres.Sql.Lowering.Bound.{bind_parameters-IsLowered}
use mongres.Sql.Lowering.Routed.{
  IsRouted, parse_sql_for_profiles-IsRouted, parse_sql_for_profiles-detects,
}
use mongres.Sql.Lowering.Router.{parse_sql_for_profiles}
use mongres.Tests.Data.{users, name_field}
use mongres.Tests.Syntax.{
  profiles, rename_statement, open_rename, bound_rename, names, parser, no_f64,
}

parse_sql_for_profiles-IsRouted_example : IsRouted profiles open_rename
unfolding parse_sql_for_profiles mongres.Sql.Lowering.collection_name_from_statement
    mongres.Sql.Resolve.collection_name_from_table_with_joins get
    mongres.Sql.Lowering.lower_statement mongres.Sql.Lowering.reject_if
    mongres.Sql.Resolve.collection_from_table_with_joins mongres.Common.Results.traverse
    mongres.Sql.Resolve.resolve_field mongres.Schema.field mongres.Order.Derived.list_cmp
    mongres.Sql.Resolve.parse_value mongres.Sql.Resolve.parse_predicate
    mongres.Sql.Resolve.resolve_expression_field mongres.Sql.Resolve.parse_comparison_operator
    mongres.Common.Results.try_for_each mongres.TypePolicy.validate_write_value
    mongres.TypePolicy.validate_write_predicate mongres.Binding.validate_row
    mongres.Common.Results.transpose mongres.Schema.find_field
    mongres.Sql.Lowering.Router.parse_one_statement mongres.Sql.Lowering.assign_to
    mongres.Sql.Lowering.collection_from_select mongres.Sql.Lowering.collection_name_from_query
    mongres.Sql.Lowering.parse_delete mongres.Sql.Lowering.parse_insert
    mongres.Sql.Lowering.parse_projection mongres.Sql.Lowering.parse_row
    mongres.Sql.Lowering.parse_select mongres.Sql.Lowering.parse_update
    mongres.Sql.Lowering.projected_field mongres.Sql.Lowering.required_filter
    mongres.Sql.Lowering.validate_select_shape mongres.Sql.Resolve.collection_from_object_name
    mongres.Sql.Resolve.collection_name_from_object_name mongres.Sql.Resolve.parse_comparison
    mongres.Sql.Resolve.parse_limit mongres.Sql.Resolve.parse_literal
    mongres.Sql.Resolve.parse_number mongres.Sql.Resolve.path_from
    mongres.Sql.Resolve.resolve_dotted_column mongres.Sql.Resolve.resolve_insert_column
    mongres.Sql.Resolve.strip_collection mongres.Text.Decimal.parse_i64 mongres.Text.contains_char
    mongres.Text.join_dots mongres.Text.split_char mongres.TypePolicy.is_compatible
    mongres.TypePolicy.non_null_types mongres.TypePolicy.observed_type_name
    mongres.TypePolicy.validate_field_shape mongres.TypePolicy.validate_read_predicate
    mongres.TypePolicy.validate_typed mongres.TypePolicy.validate_value
parse_sql_for_profiles-IsRouted_example =
    parse_sql_for_profiles-IsRouted (parser rename_statement) no_f64 "UPDATE" profiles open_rename
      refl

parse_sql_for_profiles-detects_example :
    (schema : SchemaProfile) × (get "users" profiles ≡ some schema)
    × (found : List WriteAmbiguity) × (detect_write_ambiguities open_rename schema ≡ ok found)
unfolding parse_sql_for_profiles mongres.Sql.Lowering.collection_name_from_statement
    mongres.Sql.Resolve.collection_name_from_table_with_joins get
    mongres.Sql.Lowering.lower_statement mongres.Sql.Lowering.reject_if
    mongres.Sql.Resolve.collection_from_table_with_joins mongres.Common.Results.traverse
    mongres.Sql.Resolve.resolve_field mongres.Schema.field mongres.Order.Derived.list_cmp
    mongres.Sql.Resolve.parse_value mongres.Sql.Resolve.parse_predicate
    mongres.Sql.Resolve.resolve_expression_field mongres.Sql.Resolve.parse_comparison_operator
    mongres.Common.Results.try_for_each mongres.TypePolicy.validate_write_value
    mongres.TypePolicy.validate_write_predicate mongres.Binding.validate_row
    mongres.Common.Results.transpose mongres.Schema.find_field
    mongres.Sql.Lowering.Router.parse_one_statement mongres.Sql.Lowering.assign_to
    mongres.Sql.Lowering.collection_from_select mongres.Sql.Lowering.collection_name_from_query
    mongres.Sql.Lowering.parse_delete mongres.Sql.Lowering.parse_insert
    mongres.Sql.Lowering.parse_projection mongres.Sql.Lowering.parse_row
    mongres.Sql.Lowering.parse_select mongres.Sql.Lowering.parse_update
    mongres.Sql.Lowering.projected_field mongres.Sql.Lowering.required_filter
    mongres.Sql.Lowering.validate_select_shape mongres.Sql.Resolve.collection_from_object_name
    mongres.Sql.Resolve.collection_name_from_object_name mongres.Sql.Resolve.parse_comparison
    mongres.Sql.Resolve.parse_limit mongres.Sql.Resolve.parse_literal
    mongres.Sql.Resolve.parse_number mongres.Sql.Resolve.path_from
    mongres.Sql.Resolve.resolve_dotted_column mongres.Sql.Resolve.resolve_insert_column
    mongres.Sql.Resolve.strip_collection mongres.Text.Decimal.parse_i64 mongres.Text.contains_char
    mongres.Text.join_dots mongres.Text.split_char mongres.TypePolicy.is_compatible
    mongres.TypePolicy.non_null_types mongres.TypePolicy.observed_type_name
    mongres.TypePolicy.validate_field_shape mongres.TypePolicy.validate_read_predicate
    mongres.TypePolicy.validate_typed mongres.TypePolicy.validate_value
    mongres.Policy.Detect.write_operation mongres.Plan.collection_from_plan
parse_sql_for_profiles-detects_example =
    parse_sql_for_profiles-detects (parser rename_statement) no_f64 "UPDATE" profiles open_rename
      WriteOperation.update refl refl

open_rename-IsLowered : IsLowered users "users" open_rename
unfolding mongres.Plan.collection_from_plan mongres.Schema.field mongres.Order.Derived.list_cmp
    mongres.Binding.validate_bound_plan mongres.Common.Results.try_for_each
    mongres.TypePolicy.validate_write_value mongres.TypePolicy.validate_write_predicate
open_rename-IsLowered = record {
  on_collection = refl;
  known = (((name_field, refl), tt), (name_field, refl));
  shaped = λ e. cc;
  valid = refl;
}

bind_parameters-IsLowered_example : IsLowered users "users" bound_rename
unfolding mongres.Plan.collection_from_plan mongres.Binding.bind_parameters
    mongres.Binding.maximum_placeholder_index mongres.Common.Results.try_fold
    mongres.Binding.placeholder_index mongres.Binding.parse_placeholder_index
    mongres.Text.strip_prefix_char mongres.Text.Decimal.parse_usize
    mongres.Binding.maximum_predicate_index mongres.Binding.bind_plan
    mongres.Common.Results.traverse mongres.Binding.bind_value mongres.Binding.bind_predicate
    mongres.Binding.validate_bound_plan mongres.Common.Results.try_for_each
    mongres.TypePolicy.validate_write_value mongres.Schema.field mongres.Order.Derived.list_cmp
    mongres.Binding.validate_row mongres.Common.Results.transpose mongres.Schema.find_field
    mongres.Text.Decimal.digit_char mongres.Text.Decimal.print_nat mongres.Text.join_dots
    mongres.TypePolicy.is_compatible mongres.TypePolicy.non_null_types
    mongres.TypePolicy.observed_type_name mongres.TypePolicy.validate_field_shape
    mongres.TypePolicy.validate_read_predicate mongres.TypePolicy.validate_typed
    mongres.TypePolicy.validate_value mongres.TypePolicy.validate_write_predicate
bind_parameters-IsLowered_example =
    bind_parameters-IsLowered users "users" open_rename bound_rename names open_rename-IsLowered
      refl
