-- ===== src/Tests/Policy.antt =====
-- The policy at concrete inputs.
use mongres.Prelude.{refl, ◌≡◌, ◌↔◌, ◌⊎◌, [], true, arith}
use mongres.F64.{one_f64}
use mongres.BTree.{contains}
use mongres.Common.{ok, Fails, ErrorKind}
use mongres.Schema.{FieldPath, SchemaProfile}
use mongres.Plan.{StatementPlan, delete}
use mongres.Policy.{WriteOperation, ResolutionCandidate, WriteAmbiguity, candidate_ord}
use mongres.Policy.Detect.{detect_write_ambiguities}
use mongres.Policy.Detect.Clear.{PathIsClear}
use mongres.Policy.Detect.Mentioned.{mentions, detect_write_ambiguities-clear_iff}
use mongres.Policy.Candidates.{allowed_candidates, mixed_type_assignment_value}
use mongres.Policy.Contract.{resolver_request, validate_resolver_response}
use mongres.Policy.Contract.Accepted.{Answers, validate_resolver_response_iff}
use mongres.Policy.Apply.{apply_resolution}
use mongres.Policy.Apply.Outcome.{Retagged, apply_resolution-Retagged}
use mongres.Policy.Apply.Progress.{apply_resolution_total, apply_resolution-delete}
use mongres.Tests.Data.{
  users, age, age_as_text, age_as_number, ambiguity, response, decision, delete_plan, show,
}

abbrev parse : ResolutionCandidate
parse = ResolutionCandidate.parse_integer_losslessly

detect_write_ambiguities-clear_iff_example :
    (detect_write_ambiguities age_as_text users ≡ ok [])
    ↔ ((path : FieldPath) → mentions age_as_text path ≡ true → PathIsClear users path)
unfolding mongres.Policy.Detect.write_operation
detect_write_ambiguities-clear_iff_example =
    detect_write_ambiguities-clear_iff age_as_text users WriteOperation.update refl

validate_resolver_response_iff_example :
    (validate_resolver_response
        (resolver_request show age_as_text WriteOperation.update 1 ambiguity)
        age_as_text
        ambiguity
        (response parse)
        one_f64
      ≡ ok (decision parse))
    ↔ (Answers
          (resolver_request show age_as_text WriteOperation.update 1 ambiguity)
          ambiguity
          WriteOperation.update
          1
          one_f64
          (response parse)
        × (decision parse ≡ decision parse))
validate_resolver_response_iff_example =
    validate_resolver_response_iff show age_as_text WriteOperation.update 1 ambiguity
      (response parse) one_f64 (decision parse)

apply_resolution-Retagged_example :
    (age_as_number ≡ age_as_text) ⊎ Retagged age_as_text age_as_number age
unfolding apply_resolution mixed_type_assignment_value mongres.Order.Derived.list_cmp
    mongres.Schema.is_literal_dotted_key mongres.Policy.Candidates.predicate_references_path
    mongres.Policy.Candidates.parse_integer_losslessly mongres.Text.Decimal.parse_i64
    mongres.Text.Decimal.to_string
apply_resolution-Retagged_example =
    apply_resolution-Retagged age_as_text age_as_number (decision parse) refl

apply_resolution_total_example :
    (out : StatementPlan) × (apply_resolution age_as_text (decision parse) ≡ ok out)
unfolding contains allowed_candidates mixed_type_assignment_value mongres.Order.Derived.list_cmp
    mongres.Schema.is_literal_dotted_key mongres.Policy.Candidates.predicate_references_path
    mongres.Policy.Candidates.parse_integer_losslessly mongres.Text.Decimal.parse_i64
    mongres.Text.Decimal.to_string mongres.BTree.add
apply_resolution_total_example =
    apply_resolution_total age_as_text ambiguity parse refl (λ h. cc)
      (λ h. absurd (ground (arith, h)))

apply_resolution-delete_example :
    Fails (apply_resolution (delete delete_plan) (decision parse)) ErrorKind.ambiguous_write
apply_resolution-delete_example = apply_resolution-delete delete_plan (decision parse)
