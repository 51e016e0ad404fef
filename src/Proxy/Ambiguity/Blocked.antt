-- ===== src/Proxy/Ambiguity/Blocked.antt =====
-- The audit record of an ambiguous write that is stopped.
use mongres.Prelude.{
  ℕ, ◌≤◌, String, true, false, List, [], ◌∷◌, ◌++◌, Option, none, some, map, ◌∙◌, ◌≡◌, ◌≢◌, inl,
  inr, refl, arith, Bool-cases,
}
use mongres.F64.{F64, is_finite, less, zero_f64, one_f64}
use mongres.F64.Order.{less_trans_true, less_asymmetric}
use mongres.Common.{Result, ok, err, ProxyError}
use mongres.Common.Results.{Result-cases}
use mongres.Schema.{SchemaProfile}
use mongres.Plan.{StatementPlan}
use mongres.Policy.{
  WriteAmbiguity, WriteOperation, ResolutionCandidate, reject, ValidatedResolution, ResolverRequest,
  ResolverResponse,
}
use mongres.Policy.Detect.{detect_write_ambiguities, write_operation}
use mongres.Policy.Contract.{resolver_request, validate_resolver_response, is_malformed}
use mongres.Policy.Contract.Accepted.{validate_resolver_response-ok}
use mongres.Policy.Apply.{apply_resolution}
use mongres.Policy.Audit.{
  redact, blocked, from_ratio, ResolverConfidence, AuditFailure, no_safe_resolution,
  resolver_unavailable, resolver_rejected,
}
use mongres.Proxy.Ambiguity.{
  AuditLog, accept, resolve_single_ambiguity, resolve_write_plan, has_executable_candidate,
  audit_operation, record_blocked, record_entry, validation_failure,
}

-- What the standard library's arithmetic gives of a finite ratio above 0 and up to 1: some number of
-- basis points up to 10,000. Nothing is asked of the zeros: `-0.0` is printed as `-0`, which is no
-- `u16`.
abbrev pub ScalesRatios : (F64 → Option ℕ) → Type 0
ScalesRatios scaled =
    (x : F64)
    → is_finite x ≡ true
    → less zero_f64 x ≡ true
    → less one_f64 x ≡ false
    → (points : ℕ) × (scaled x ≡ some points) × (points ≤ 10000)

zero_f64-is_finite : is_finite zero_f64 ≡ true
unfolding is_finite
zero_f64-is_finite = refl

from_ratio_total :
    (scaled : F64 → Option ℕ) (x : F64)
    → ScalesRatios scaled
    → is_finite x ≡ true
    → less zero_f64 x ≡ true
    → less one_f64 x ≡ false
    → (c : ResolverConfidence) × (from_ratio scaled x ≡ some c)
unfolding from_ratio
from_ratio_total scaled x scales finite above below =
    let (points, here, fits) = scales x finite above below in
    let not_below = less_asymmetric zero_f64 x zero_f64-is_finite finite above in
    (record { basis_points = points }, ground (arith, here, not_below))

well_formed-bounds :
    (request : ResolverRequest) (response : ResolverResponse) (minimum : F64)
    → is_malformed request response minimum ≡ false
    → (is_finite response.confidence ≡ true)
      × (less response.confidence minimum ≡ false)
      × (less one_f64 response.confidence ≡ false)
unfolding is_malformed
well_formed-bounds request response minimum h = (ground arith, ground arith, ground arith)

module _ (resolve : ResolverRequest → Result ProxyError ResolverResponse) (show_f64 : F64 → String)
    (scaled : F64 → Option ℕ) (scales : ScalesRatios scaled) (plan : StatementPlan)
    (schema : SchemaProfile) (minimum : F64) (finite : is_finite minimum ≡ true)
    (positive : less zero_f64 minimum ≡ true) where
  -- The log that `record_blocked` makes for these ambiguities.
  abbrev IsRecorded : AuditLog → List WriteAmbiguity → AuditLog → Type 0
  IsRecorded log ambiguities log' =
      (operation : WriteOperation) × (allowed : List ResolutionCandidate) × (failure : AuditFailure)
      × (write_operation plan ≡ ok operation)
      × (log' ≡ record_blocked schema (audit_operation operation) ambiguities allowed failure log)

  -- The error of the last step is not met: the confidence of a well-formed response is a ratio.
  accept-ne-err :
      (operation : WriteOperation) (a : WriteAmbiguity) (request : ResolverRequest)
      (response : ResolverResponse) (resolution : ValidatedResolution) (out : StatementPlan)
      (e : ProxyError)
      → is_malformed request response minimum ≡ false
      → accept resolve show_f64 scaled operation a request response resolution out ≢ err e
  unfolding accept
  accept-ne-err operation a request response resolution out e h refused =
      let (fx, at_least, at_most) = well_formed-bounds request response minimum h in
      let (c, valid) =
        from_ratio_total scaled response.confidence scales fx
          (less_trans_true response.confidence minimum zero_f64 fx finite zero_f64-is_finite
            at_least positive)
          at_most in
      ground (arith, valid)

  single_blocked :
      (operation : WriteOperation) (a : WriteAmbiguity) (log log' : AuditLog) (e : ProxyError)
      → write_operation plan ≡ ok operation
      → resolve_single_ambiguity resolve show_f64 scaled plan schema minimum operation a log
        ≡ (err e, log')
      → IsRecorded log (a ∷ []) log'
  unfolding resolve_single_ambiguity
  single_blocked operation a log log' e w h =
      let request = resolver_request show_f64 plan operation schema.profile_version a in
      let allowed = request.allowed_candidates in
      elim (Bool-cases (has_executable_candidate allowed)) [
        | inr none_left ↦ (operation, allowed, no_safe_resolution, w, ground (arith, none_left))
        | inl executable ↦ elim (Result-cases (resolve request)) [
          | inr (x, unavailable) ↦
              (operation, allowed, resolver_unavailable, w, ground (arith, executable, unavailable))
          | inl (response, answered) ↦
              elim (Result-cases (validate_resolver_response request plan a response minimum)) [
                | inr (x, refused) ↦ (
                  operation,
                  allowed,
                  validation_failure request response minimum,
                  w,
                  ground (arith, executable, answered, refused),
                )
                | inl (resolution, accepted) ↦
                    elim (Result-cases (apply_resolution plan resolution)) [
                      | inr (x, rejected) ↦ (
                        operation,
                        allowed,
                        resolver_rejected,
                        w,
                        ground (arith, executable, answered, accepted, rejected),
                      )
                      | inl (out, applied) ↦ absurd (
                          accept-ne-err operation a request response resolution out e
                            (validate_resolver_response-ok request plan a response minimum
                              resolution accepted).0
                            (ground (arith, executable, answered, accepted, applied)))
                    ]
              ]
        ]
      ]

  -- What `resolve_write_plan` does with a refused plan, on the log.
  resolve_write_plan-IsRecorded :
      (a : WriteAmbiguity) (more : List WriteAmbiguity) (operation : WriteOperation)
      (log log' : AuditLog) (e : ProxyError)
      → write_operation plan ≡ ok operation
      → detect_write_ambiguities plan schema ≡ ok (a ∷ more)
      → resolve_write_plan resolve show_f64 scaled plan schema minimum log ≡ (err e, log')
      → IsRecorded log (a ∷ more) log'
  unfolding resolve_write_plan
  resolve_write_plan-IsRecorded a [] operation log log' e w d h =
      single_blocked operation a log log' e w (ground (arith, d, w))
  resolve_write_plan-IsRecorded a (b ∷ more) operation log log' e w d h =
      (operation, reject ∷ [], no_safe_resolution, w, ground (arith, d, w))

  -- A lock that is not poisoned has one record more, a blocked one with the plan's operation, the version
  -- of the profile and the redacted ambiguities, but without a candidate or a confidence. A poisoned
  -- one is as it was.
  abbrev pub BlockedFrom : AuditLog → List WriteAmbiguity → AuditLog → Type 0
  BlockedFrom log ambiguities log' =
      (log.poisoned ≡ true → log' ≡ log)
      × (log.poisoned ≡ false
          → (operation : WriteOperation) × (allowed : List ResolutionCandidate)
            × (failure : AuditFailure) × (write_operation plan ≡ ok operation)
            × (log' ≡ record {
              poisoned = false;
              records =
                  log.records
                  ++ record {
                    schema_profile_version = schema.profile_version;
                    operation = audit_operation operation;
                    ambiguities = map redact ambiguities;
                    allowed_candidates = allowed;
                    selected_candidate = none;
                    confidence = none;
                    outcome = blocked failure;
                  }
                    ∷ [];
            }))

  -- When `resolve_write_plan` refuses a write plan with an ambiguity, the audit log has exactly one
  -- record more, a blocked one with the plan's operation and all the ambiguities, or is as it was if
  -- its lock is poisoned. The minimum confidence is finite and above zero, and the scaling of every
  -- finite ratio above 0 and up to 1 succeeds with at most 10,000 points.
  pub resolve_write_plan-BlockedFrom :
      (a : WriteAmbiguity) (more : List WriteAmbiguity) (operation : WriteOperation)
      (log log' : AuditLog) (e : ProxyError)
      → write_operation plan ≡ ok operation
      → detect_write_ambiguities plan schema ≡ ok (a ∷ more)
      → resolve_write_plan resolve show_f64 scaled plan schema minimum log ≡ (err e, log')
      → BlockedFrom log (a ∷ more) log'
  unfolding record_blocked record_entry
  resolve_write_plan-BlockedFrom a more operation log log' e w d h =
      let (op, allowed, failure, is_write, made) =
        resolve_write_plan-IsRecorded a more operation log log' e w d h in
      (
        λ poisoned. made ∙ rw (record_blocked, record_entry, poisoned) refl,
        λ open_lock. (
          op,
          allowed,
          failure,
          is_write,
          made ∙ rw (record_blocked, record_entry, open_lock) refl,
        ),
      )
