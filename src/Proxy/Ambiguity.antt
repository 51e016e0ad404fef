-- ===== src/Proxy/Ambiguity.antt =====
-- crates/proxy/src/ambiguity.rs: detection, the call of the resolver, the check of its answer, and the
-- audit. The resolver's transport (crates/resolver-client) is a function from requests to results:
-- the model holds for every answer that it may give. The shared `Mutex<Vec<_>>` of the audit records
-- is passed from call to call; a poisoned lock drops the record, as `record` does.
pub mod Blocked
pub mod FailClosed
pub mod Logged
use mongres.Prelude.{
  ℕ, String, Bool, true, false, not, ◌||◌, List, [], ◌∷◌, ◌++◌, Option, none, some, any, map, ◌==◌,
  if◌then◌else◌,
}
use mongres.F64.{F64, is_finite, less, one_f64}
use mongres.Common.{Result, ok, err, ProxyError}
use mongres.Executor.Outcome.{WriteOutcome}
use mongres.Schema.{SchemaProfile}
use mongres.Plan.{StatementPlan}
use mongres.Policy.{
  WriteAmbiguity, WriteOperation, ResolutionCandidate, reject, ValidatedResolution, ResolverRequest,
  ResolverResponse,
}
use mongres.Policy.Detect.{detect_write_ambiguities, write_operation}
use mongres.Policy.Contract.{resolver_request, validate_resolver_response}
use mongres.Policy.Apply.{apply_resolution, unresolved_write_error, ambiguous_write}
use mongres.Policy.Audit.{
  AuditOperation, RedactedAmbiguity, redact, ResolverConfidence, from_ratio, AuditWriteCounts,
  AuditFailure, no_safe_resolution, resolver_rejected, resolver_unavailable,
  invalid_resolver_response, stale_schema_profile, low_confidence, mongo_execution_failed,
  AuditOutcome, executed, blocked, AmbiguityAuditRecord,
}

-- `AuditContext`
pub record AuditContext : Type 0 where
  pub operation : AuditOperation
  pub ambiguities : List RedactedAmbiguity
  pub allowed_candidates : List ResolutionCandidate
  pub selected_candidate : ResolutionCandidate
  pub confidence : ResolverConfidence

-- `ResolvedWrite`
pub record ResolvedWrite : Type 0 where
  pub plan : StatementPlan
  pub audit_context : Option AuditContext

-- `Mutex<Vec<AmbiguityAuditRecord>>`
pub record AuditLog : Type 0 where
  pub poisoned : Bool
  pub records : List AmbiguityAuditRecord

-- `record`
unfoldable pub record_entry : AmbiguityAuditRecord → AuditLog → AuditLog
record_entry r log = if log.poisoned then log else record log { records = log.records ++ r ∷ [] }

-- `audit_operation`
abbrev pub audit_operation : WriteOperation → AuditOperation
audit_operation WriteOperation.insert = AuditOperation.insert
audit_operation WriteOperation.update = AuditOperation.update
audit_operation WriteOperation.delete = AuditOperation.delete

-- `record_blocked`
unfoldable pub record_blocked :
    SchemaProfile
    → AuditOperation
    → List WriteAmbiguity
    → List ResolutionCandidate
    → AuditFailure
    → AuditLog
    → AuditLog
unfolding record_entry
record_blocked schema operation ambiguities allowed failure = record_entry (record {
  schema_profile_version = schema.profile_version;
  operation = operation;
  ambiguities = map redact ambiguities;
  allowed_candidates = allowed;
  selected_candidate = none;
  confidence = none;
  outcome = blocked failure;
})

abbrev context_record : SchemaProfile → AuditContext → AuditOutcome → AmbiguityAuditRecord
context_record schema c outcome = record {
  schema_profile_version = schema.profile_version;
  operation = c.operation;
  ambiguities = c.ambiguities;
  allowed_candidates = c.allowed_candidates;
  selected_candidate = some c.selected_candidate;
  confidence = some c.confidence;
  outcome = outcome;
}

-- `record_execution`
unfoldable pub record_execution :
    SchemaProfile → Option AuditContext → WriteOutcome → AuditLog → AuditLog
unfolding record_entry
record_execution schema none outcome log = log
record_execution schema (some c) outcome log =
    record_entry
      (context_record schema c (
        executed (record {
          matched = outcome.matched;
          modified = outcome.modified;
          inserted = outcome.inserted;
          deleted = outcome.deleted;
        })))
      log

-- `record_mongo_execution_failure`
unfoldable pub record_mongo_execution_failure :
    SchemaProfile → Option AuditContext → AuditLog → AuditLog
unfolding record_entry
record_mongo_execution_failure schema none log = log
record_mongo_execution_failure schema (some c) log =
    record_entry (context_record schema c (blocked mongo_execution_failed)) log

abbrev is_executable : ResolutionCandidate → Bool
is_executable reject = false
is_executable c = true

-- `has_executable_candidate`
unfoldable pub has_executable_candidate : List ResolutionCandidate → Bool
has_executable_candidate candidates = any is_executable candidates

-- `validation_failure`
unfoldable pub validation_failure : ResolverRequest → ResolverResponse → F64 → AuditFailure
validation_failure request response minimum_confidence =
    if not (response.schema_profile_version == request.schema_profile_version)
    then stale_schema_profile
    else if not (is_finite response.confidence)
        || (less response.confidence minimum_confidence || less one_f64 response.confidence)
    then low_confidence
    else invalid_resolver_response

-- A step that keeps the audit log and may fail.
abbrev pub Logged : Type 0 → Type 0
Logged A = Result ProxyError A × AuditLog

-- The resolver, the print of an `f64`, and the scaling of a confidence to basis points.
module _ (resolve : ResolverRequest → Result ProxyError ResolverResponse) (show_f64 : F64 → String)
    (scaled : F64 → Option ℕ) where
  -- The last step of `resolve_single_ambiguity`: `confidence.ok_or_else(…)?` and the result.
  unfoldable pub accept :
      WriteOperation
      → WriteAmbiguity
      → ResolverRequest
      → ResolverResponse
      → ValidatedResolution
      → StatementPlan
      → Result ProxyError ResolvedWrite
  accept operation a request response resolution plan =
      elim (from_ratio scaled response.confidence) [
        | none ↦ err (ambiguous_write "validated resolver response has an invalid confidence value")
        | some confidence ↦ ok (record {
          plan = plan;
          audit_context = some (record {
            operation = audit_operation operation;
            ambiguities = redact a ∷ [];
            allowed_candidates = request.allowed_candidates;
            selected_candidate = resolution.candidate;
            confidence = confidence;
          });
        })
      ]

  -- `resolve_single_ambiguity`
  unfoldable pub resolve_single_ambiguity :
      StatementPlan
      → SchemaProfile
      → F64
      → WriteOperation
      → WriteAmbiguity
      → AuditLog
      → Logged ResolvedWrite
  unfolding accept
  resolve_single_ambiguity plan schema minimum_confidence operation a log =
      let request = resolver_request show_f64 plan operation schema.profile_version a in
      let block = λ (failure : AuditFailure).
        record_blocked schema (audit_operation operation) (a ∷ []) request.allowed_candidates
          failure log in
      if not (has_executable_candidate request.allowed_candidates)
      then (err (unresolved_write_error (a ∷ [])), block no_safe_resolution)
      else elim (resolve request) [
        | err e ↦ (err e, block resolver_unavailable)
        | ok response ↦
            elim (validate_resolver_response request plan a response minimum_confidence) [
              | err e ↦ (err e, block (validation_failure request response minimum_confidence))
              | ok resolution ↦ elim (apply_resolution plan resolution) [
                | err e ↦ (err e, block resolver_rejected)
                | ok resolved ↦ (accept operation a request response resolution resolved, log)
              ]
            ]
      ]

  -- `resolve_write_plan`
  unfoldable pub resolve_write_plan :
      StatementPlan → SchemaProfile → F64 → AuditLog → Logged ResolvedWrite
  unfolding resolve_single_ambiguity
  resolve_write_plan plan schema minimum_confidence log =
      elim (detect_write_ambiguities plan schema) [
        | err e ↦ (err e, log)
        | ok [] ↦ (ok (record { plan = plan; audit_context = none }), log)
        | ok (a ∷ more) ↦ elim (write_operation plan) [
          | err e ↦ (err e, log)
          | ok operation ↦ elim more [
            | [] ↦ resolve_single_ambiguity plan schema minimum_confidence operation a log
            | b ∷ others ↦ (
              err (unresolved_write_error (a ∷ b ∷ others)),
              record_blocked schema (audit_operation operation) (a ∷ b ∷ others) (reject ∷ [])
                  no_safe_resolution log,
            )
          ]
        ]
      ]
