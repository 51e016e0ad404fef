-- ===== src/Proxy/Ambiguity/Logged.antt =====
-- What the ambiguity gate leaves in the audit log, and what it hands on for the log.
use mongres.Prelude.{
  ℕ, ◌≤◌, String, true, List, [], ◌∷◌, Option, none, some, ◌≡◌, ◌≢◌, ◌⊎◌, inl, inr, refl, arith,
  Bool-cases, Option-cases,
}
use mongres.F64.{F64}
use mongres.BTree.{contains}
use mongres.Common.{Result, ok, err, ProxyError}
use mongres.Common.Results.{Result-cases}
use mongres.Schema.{SchemaProfile}
use mongres.Plan.{StatementPlan}
use mongres.Policy.{
  WriteAmbiguity, WriteOperation, ResolutionCandidate, reject, candidate_ord, ValidatedResolution,
  ResolverRequest, ResolverResponse,
}
use mongres.Policy.Detect.{detect_write_ambiguities, write_operation}
use mongres.Policy.Contract.{resolver_request, validate_resolver_response}
use mongres.Policy.Contract.Accepted.{validate_resolver_response-ok}
use mongres.Policy.Apply.{apply_resolution}
use mongres.Policy.Apply.Kept.{Keeps, apply_resolution-Keeps}
use mongres.Policy.Audit.{AuditOperation, AuditFailure, from_ratio, ResolverConfidence}
use mongres.Proxy.Ambiguity.{
  AuditContext, AuditLog, ResolvedWrite, Logged, accept, resolve_single_ambiguity,
  resolve_write_plan, has_executable_candidate, record_blocked,
}

-- The decision is a permitted one, not a rejection, and its confidence is a ratio.
pub record ContextIsSound (c : AuditContext) : Type 0 where
  pub allowed : contains c.selected_candidate c.allowed_candidates ≡ true
  pub live : c.selected_candidate ≢ reject
  pub ratio : c.confidence.basis_points ≤ 10000

abbrev pub ContextsAreSound : Option AuditContext → Type 0
ContextsAreSound none = Unit {0}
ContextsAreSound (some c) = ContextIsSound c

-- A refused write leaves the log or adds one record of a blocked write; an approved write leaves it,
-- is the same statement on the same collection, and is handed on with a sound decision or none.
unfoldable pub GateIsSound :
    StatementPlan → SchemaProfile → AuditLog → Logged ResolvedWrite → Type 0
GateIsSound plan schema log (ok r, log') =
    (log' ≡ log) × Keeps plan r.plan × ContextsAreSound r.audit_context
GateIsSound plan schema log (err e, log') =
    (log' ≡ log)
    ⊎ ((operation : AuditOperation) × (ambiguities : List WriteAmbiguity) × (allowed : List
          ResolutionCandidate)
        × (failure : AuditFailure) × (log'
            ≡ record_blocked schema operation ambiguities allowed failure log))

from_ratio-le :
    (scaled : F64 → Option ℕ) (x : F64) (c : ResolverConfidence)
    → from_ratio scaled x ≡ some c
    → c.basis_points ≤ 10000
unfolding from_ratio
from_ratio-le scaled x c h = elim (Option-cases (scaled x)) [
  | inl outside ↦ absurd (ground (arith, outside))
  | inr (points, inside) ↦ ground (arith, inside)
]

module _ (resolve : ResolverRequest → Result ProxyError ResolverResponse) (show_f64 : F64 → String)
    (scaled : F64 → Option ℕ) (plan : StatementPlan) (schema : SchemaProfile) (minimum : F64)
    (log : AuditLog) where
  blocked_one :
      (operation : AuditOperation) (ambiguities : List WriteAmbiguity)
      (allowed : List ResolutionCandidate) (failure : AuditFailure) (e : ProxyError)
      → GateIsSound plan schema log
          (err e, record_blocked schema operation ambiguities allowed failure log)
  unfolding GateIsSound
  blocked_one operation ambiguities allowed failure e =
      inr (operation, ambiguities, allowed, failure, refl)

  accept_sound :
      (operation : WriteOperation) (a : WriteAmbiguity) (request : ResolverRequest)
      (response : ResolverResponse) (resolution : ValidatedResolution) (out : StatementPlan)
      → contains resolution.candidate request.allowed_candidates ≡ true
      → apply_resolution plan resolution ≡ ok out
      → GateIsSound plan schema log
          (accept resolve show_f64 scaled operation a request response resolution out, log)
  unfolding GateIsSound accept
  accept_sound operation a request response resolution out allowed applied =
      elim (Option-cases (from_ratio scaled response.confidence)) [
        | inl invalid ↦ rw (accept, invalid) (inl refl)
        | inr (c, valid) ↦
            let (live, kept) = apply_resolution-Keeps plan resolution out applied in
            rw (accept, valid)
              (
                refl,
                kept,
                record {
                  allowed = allowed;
                  live = live;
                  ratio = from_ratio-le scaled response.confidence c valid;
                },
              )
      ]

  permitted :
      (operation : WriteOperation) (a : WriteAmbiguity) (response : ResolverResponse)
      (resolution : ValidatedResolution)
      → validate_resolver_response
          (resolver_request show_f64 plan operation schema.profile_version a)
          plan
          a
          response
          minimum
        ≡ ok resolution
      → contains resolution.candidate
          ((resolver_request show_f64 plan operation schema.profile_version a).allowed_candidates)
        ≡ true
  unfolding resolver_request
  permitted operation a response resolution accepted =
      let (_, allowed, same) =
        validate_resolver_response-ok
          (resolver_request show_f64 plan operation schema.profile_version a) plan a response
          minimum resolution accepted in
      rw same allowed

  single_sound :
      (operation : WriteOperation) (a : WriteAmbiguity)
      → GateIsSound plan schema log
          (resolve_single_ambiguity resolve show_f64 scaled plan schema minimum operation a log)
  unfolding resolve_single_ambiguity
  single_sound operation a =
      let request = resolver_request show_f64 plan operation schema.profile_version a in
      elim (Bool-cases (has_executable_candidate request.allowed_candidates)) [
        | inr none_left ↦ rw (resolve_single_ambiguity, none_left) (blocked_one _ _ _ _ _)
        | inl executable ↦ elim (Result-cases (resolve request)) [
          | inr (x, unavailable) ↦
              rw (resolve_single_ambiguity, executable, unavailable) (blocked_one _ _ _ _ _)
          | inl (response, answered) ↦
              elim (Result-cases (validate_resolver_response request plan a response minimum)) [
                | inr (x, refused) ↦
                    rw (resolve_single_ambiguity, executable, answered, refused)
                      (blocked_one _ _ _ _ _)
                | inl (resolution, accepted) ↦
                    elim (Result-cases (apply_resolution plan resolution)) [
                      | inr (x, rejected) ↦
                          rw (resolve_single_ambiguity, executable, answered, accepted, rejected)
                            (blocked_one _ _ _ _ _)
                      | inl (out, applied) ↦
                          rw (resolve_single_ambiguity, executable, answered, accepted, applied)
                            (accept_sound operation a request response resolution out
                              (permitted operation a response resolution accepted) applied)
                    ]
              ]
        ]
      ]

  detected_sound :
      (found : Result ProxyError (List WriteAmbiguity))
      → detect_write_ambiguities plan schema ≡ found
      → GateIsSound plan schema log
          (resolve_write_plan resolve show_f64 scaled plan schema minimum log)
  unfolding resolve_write_plan
  detected_sound (err e) d = unfold GateIsSound in (rw (resolve_write_plan, d) (inl refl))
  detected_sound (ok []) d =
      unfold GateIsSound in (rw (resolve_write_plan, d) (refl, (refl, refl), tt))
  detected_sound (ok (a ∷ [])) d = elim (Result-cases (write_operation plan)) [
    | inl (operation, w) ↦ rw (resolve_write_plan, d, w) (single_sound operation a)
    | inr (e, w) ↦ unfold GateIsSound in (rw (resolve_write_plan, d, w) (inl refl))
  ]
  detected_sound (ok (a ∷ b ∷ more)) d = elim (Result-cases (write_operation plan)) [
    | inl (operation, w) ↦ rw (resolve_write_plan, d, w) (blocked_one _ _ _ _ _)
    | inr (e, w) ↦ unfold GateIsSound in (rw (resolve_write_plan, d, w) (inl refl))
  ]

  -- Whatever the resolver answers, the gate refuses a write with the audit log unchanged or longer by
  -- one record of a blocked write, or approves it with the log unchanged; an approved write is the
  -- same statement on the same collection, and a decision behind it is an allowed candidate other
  -- than rejection, with a confidence of at most 10,000 basis points.
  pub resolve_write_plan-GateIsSound :
      GateIsSound plan schema log
        (resolve_write_plan resolve show_f64 scaled plan schema minimum log)
  resolve_write_plan-GateIsSound = detected_sound (detect_write_ambiguities plan schema) refl
