-- ===== src/Tests/Binding.antt =====
-- Binding at concrete inputs.
use mongres.Prelude.{refl, ◌≡◌}
use mongres.Common.{ok, ◌>>=◌}
use mongres.Plan.{StatementPlan}
use mongres.Binding.{bind_parameters, bind_plan, validate_bound_plan, maximum_placeholder_index}
use mongres.Binding.Closed.{PlanIsClosed, bind_parameters-PlanIsClosed}
use mongres.Binding.Indices.{PlanFits, maximum_placeholder_index-PlanFits}
use mongres.Binding.Total.{bind_parameters_total}
use mongres.Tests.Data.{users, prepared, age_as_text, parameters}

bind_parameters-PlanIsClosed_example : PlanIsClosed age_as_text
unfolding bind_parameters maximum_placeholder_index mongres.Common.Results.try_fold
    mongres.Binding.placeholder_index mongres.Binding.parse_placeholder_index
    mongres.Text.strip_prefix_char mongres.Text.Decimal.parse_usize
    mongres.Binding.maximum_predicate_index bind_plan mongres.Common.Results.traverse
    mongres.Binding.bind_value mongres.Binding.bind_predicate validate_bound_plan
    mongres.Common.Results.try_for_each mongres.TypePolicy.validate_write_value mongres.Schema.field
    mongres.Order.Derived.list_cmp mongres.TypePolicy.non_null_types mongres.Binding.validate_row
    mongres.Common.Results.transpose mongres.Schema.find_field mongres.Text.Decimal.digit_char
    mongres.Text.Decimal.print_nat mongres.Text.join_dots mongres.TypePolicy.is_compatible
    mongres.TypePolicy.observed_type_name mongres.TypePolicy.validate_field_shape
    mongres.TypePolicy.validate_read_predicate mongres.TypePolicy.validate_value
    mongres.TypePolicy.validate_write_predicate
bind_parameters-PlanIsClosed_example =
    bind_parameters-PlanIsClosed prepared age_as_text parameters users refl

maximum_placeholder_index-PlanFits_example : PlanFits 2 prepared
unfolding maximum_placeholder_index mongres.Common.Results.try_fold
    mongres.Binding.placeholder_index mongres.Binding.parse_placeholder_index
    mongres.Text.strip_prefix_char mongres.Text.Decimal.parse_usize
    mongres.Binding.maximum_predicate_index
maximum_placeholder_index-PlanFits_example = maximum_placeholder_index-PlanFits 2 prepared refl

bind_parameters_total_example :
    (bound : StatementPlan) × (bind_plan prepared parameters ≡ ok bound)
    × (bind_parameters prepared parameters users
        ≡ (validate_bound_plan bound users >>= λ _. ok bound))
unfolding maximum_placeholder_index mongres.Common.Results.try_fold
    mongres.Binding.placeholder_index mongres.Binding.parse_placeholder_index
    mongres.Text.strip_prefix_char mongres.Text.Decimal.parse_usize
    mongres.Binding.maximum_predicate_index
bind_parameters_total_example = bind_parameters_total prepared parameters users refl refl
