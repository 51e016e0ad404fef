-- ===== src/Tests/Proxy.antt =====
-- The proxy's decision at concrete inputs.
use mongres.Prelude.{refl, ◌≡◌, [], ◌∷◌, true, none, some, arith}
use mongres.F64.{one_f64, zero_f64, is_finite, less}
use mongres.Common.{ok, err, ProxyError, proxy_error, ErrorKind}
use mongres.Plan.{delete}
use mongres.Policy.{WriteOperation, ResolutionCandidate}
use mongres.Policy.Apply.{unresolved_write_error}
use mongres.Policy.Audit.{AuditFailure, AuditOperation, redact}
use mongres.Policy.Detect.{detect_write_ambiguities}
use mongres.Proxy.Ambiguity.{
  resolve_write_plan, ResolvedWrite, AuditLog, record_blocked, AuditContext,
}
use mongres.Proxy.Ambiguity.FailClosed.{
  Approved, resolve_write_plan-Approved, resolve_write_plan-delete,
}
use mongres.Proxy.Ambiguity.Blocked.{BlockedFrom, ScalesRatios, resolve_write_plan-BlockedFrom}
use mongres.Tests.Data.{
  users, age_as_text, age_as_number, ambiguity, delete_plan, show, scale, answer, no_records,
}

abbrev parse : ResolutionCandidate
parse = ResolutionCandidate.parse_integer_losslessly

abbrev resolved : ResolvedWrite
resolved = record {
  plan = age_as_number;
  audit_context = some (record {
    operation = AuditOperation.update;
    ambiguities = redact ambiguity ∷ [];
    allowed_candidates = ResolutionCandidate.keep_string ∷ parse ∷ ResolutionCandidate.reject ∷ [];
    selected_candidate = parse;
    confidence = record { basis_points = 10000 };
  });
}

resolve_write_plan-Approved_example :
    (no_records ≡ no_records)
    × Approved (answer parse) show scale age_as_text users one_f64 resolved
unfolding resolve_write_plan detect_write_ambiguities mongres.BTree.add mongres.BTree.extend
    mongres.Order.Derived.list_cmp mongres.Policy.Detect.ambiguity_for_path mongres.Schema.field
    mongres.TypePolicy.non_null_types mongres.Policy.Detect.write_operation
    mongres.Proxy.Ambiguity.has_executable_candidate mongres.Policy.Contract.resolver_request
    mongres.Policy.Candidates.allowed_candidates
    mongres.Policy.Candidates.mixed_type_assignment_value mongres.Schema.Path.is_literal_dotted_key
    mongres.Policy.Candidates.predicate_references_path
    mongres.Policy.Candidates.parse_integer_losslessly mongres.Text.Decimal.parse_i64
    mongres.BTree.contains is_finite mongres.F64.less mongres.Policy.Apply.apply_candidate
    mongres.Policy.Apply.apply_resolution mongres.Policy.Apply.join_commas
    mongres.Policy.Apply.retype_update_assignment
    mongres.Policy.Apply.retype_update_assignment_as_string unresolved_write_error
    mongres.Policy.Apply.write_plan_references_path mongres.Policy.Audit.from_basis_points
    mongres.Policy.Audit.from_ratio mongres.Policy.Candidates.is_mixed_scalar
    mongres.Policy.Candidates.nested_path_is_safe mongres.Policy.Candidates.validate_resolution
    mongres.Policy.Contract.find_assignment mongres.Policy.Contract.is_malformed
    mongres.Policy.Contract.observed_shape_name mongres.Policy.Contract.observed_type_name
    mongres.Policy.Contract.position mongres.Policy.Contract.validate_resolver_response
    mongres.Policy.Contract.value_evidence mongres.Policy.Contract.write_value_evidence
    mongres.Policy.Detect.ambiguity_kinds mongres.Policy.Detect.collect_predicate_paths
    mongres.Policy.Detect.detect_paths mongres.Policy.Detect.written_paths
    mongres.Proxy.Ambiguity.accept record_blocked mongres.Proxy.Ambiguity.record_entry
    mongres.Proxy.Ambiguity.resolve_single_ambiguity mongres.Proxy.Ambiguity.validation_failure
    mongres.Schema.find_field mongres.Text.Decimal.digit_char mongres.Text.Decimal.print_nat
    mongres.Text.Decimal.to_string mongres.Text.contains_char mongres.Text.is_empty
    mongres.Text.join_dots mongres.Text.take_chars
resolve_write_plan-Approved_example =
    resolve_write_plan-Approved (answer parse) show scale age_as_text users one_f64 no_records
      no_records resolved refl

abbrev unchanged : ResolvedWrite
unchanged = record { plan = delete delete_plan; audit_context = none }

resolve_write_plan-delete_example :
    (detect_write_ambiguities (delete delete_plan) users ≡ ok [])
    × (delete delete_plan ≡ delete delete_plan)
unfolding resolve_write_plan detect_write_ambiguities mongres.BTree.add
    mongres.Policy.Detect.ambiguity_for_path mongres.Schema.field mongres.Order.Derived.list_cmp
    mongres.TypePolicy.non_null_types
resolve_write_plan-delete_example =
    resolve_write_plan-delete (answer parse) show scale delete_plan users one_f64 no_records
      no_records unchanged refl

scale-ScalesRatios : ScalesRatios scale
scale-ScalesRatios x finite above below = (10000, refl, omega arith)

abbrev blocked_log : AuditLog
blocked_log =
    record_blocked users AuditOperation.update (ambiguity ∷ [])
      (ResolutionCandidate.keep_string ∷ parse ∷ ResolutionCandidate.reject ∷ [])
      AuditFailure.resolver_unavailable no_records

-- A resolver that is not there.
abbrev unavailable : ProxyError
unavailable = proxy_error ErrorKind.dependency "resolver unavailable"

one-is_finite : is_finite one_f64 ≡ true
unfolding is_finite
one-is_finite = refl

zero-less-one : less zero_f64 one_f64 ≡ true
unfolding less
zero-less-one = refl

resolve_write_plan-BlockedFrom_example :
    BlockedFrom
      (λ request. err unavailable)
      show
      scale
      scale-ScalesRatios
      age_as_text
      users
      one_f64
      one-is_finite
      zero-less-one
      no_records
      (ambiguity ∷ [])
      blocked_log
unfolding mongres.Policy.Detect.write_operation detect_write_ambiguities mongres.BTree.add
    mongres.BTree.extend mongres.Order.Derived.list_cmp mongres.Policy.Detect.ambiguity_for_path
    mongres.Schema.field mongres.TypePolicy.non_null_types resolve_write_plan
    mongres.Proxy.Ambiguity.has_executable_candidate mongres.Policy.Contract.resolver_request
    mongres.Policy.Candidates.allowed_candidates
    mongres.Policy.Candidates.mixed_type_assignment_value mongres.Schema.Path.is_literal_dotted_key
    mongres.Policy.Candidates.predicate_references_path
    mongres.Policy.Candidates.parse_integer_losslessly mongres.Text.Decimal.parse_i64
    mongres.BTree.contains is_finite less mongres.Policy.Apply.apply_candidate
    mongres.Policy.Apply.apply_resolution mongres.Policy.Apply.join_commas
    mongres.Policy.Apply.retype_update_assignment
    mongres.Policy.Apply.retype_update_assignment_as_string unresolved_write_error
    mongres.Policy.Apply.write_plan_references_path mongres.Policy.Audit.from_basis_points
    mongres.Policy.Audit.from_ratio mongres.Policy.Candidates.is_mixed_scalar
    mongres.Policy.Candidates.nested_path_is_safe mongres.Policy.Candidates.validate_resolution
    mongres.Policy.Contract.find_assignment mongres.Policy.Contract.is_malformed
    mongres.Policy.Contract.observed_shape_name mongres.Policy.Contract.observed_type_name
    mongres.Policy.Contract.position mongres.Policy.Contract.validate_resolver_response
    mongres.Policy.Contract.value_evidence mongres.Policy.Contract.write_value_evidence
    mongres.Policy.Detect.ambiguity_kinds mongres.Policy.Detect.collect_predicate_paths
    mongres.Policy.Detect.detect_paths mongres.Policy.Detect.written_paths
    mongres.Proxy.Ambiguity.accept record_blocked mongres.Proxy.Ambiguity.record_entry
    mongres.Proxy.Ambiguity.resolve_single_ambiguity mongres.Proxy.Ambiguity.validation_failure
    mongres.Schema.find_field mongres.Text.Decimal.digit_char mongres.Text.Decimal.print_nat
    mongres.Text.Decimal.to_string mongres.Text.contains_char mongres.Text.is_empty
    mongres.Text.join_dots mongres.Text.take_chars
resolve_write_plan-BlockedFrom_example =
    resolve_write_plan-BlockedFrom (λ request. err unavailable) show scale scale-ScalesRatios
      age_as_text users one_f64 one-is_finite zero-less-one ambiguity [] WriteOperation.update
      no_records blocked_log unavailable refl refl refl
