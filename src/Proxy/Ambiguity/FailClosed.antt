-- ===== src/Proxy/Ambiguity/FailClosed.antt =====
-- A write with an ambiguity reaches the executor only after an accepted decision.
use mongres.Prelude.{
  ℕ, String, true, false, List, [], ◌∷◌, Option, none, some, ◌≡◌, ◌⊎◌, inl, inr, refl, sym, ap, ◌∙◌,
  arith, Bool-cases, Option-cases,
}
use mongres.F64.{F64}
use mongres.BTree.{contains}
use mongres.Common.{Result, ok, err, ProxyError, ErrorKind, Fails}
use mongres.Common.Results.{Result-cases, ok_injective}
use mongres.Schema.{SchemaProfile}
use mongres.Plan.{StatementPlan, DeletePlan, delete}
use mongres.Policy.{
  WriteAmbiguity, WriteOperation, candidate_ord, ValidatedResolution, ResolverRequest,
  ResolverResponse,
}
use mongres.Policy.Candidates.{allowed_candidates}
use mongres.Policy.Detect.{detect_write_ambiguities, write_operation}
use mongres.Policy.Contract.{resolver_request, validate_resolver_response, is_malformed}
use mongres.Policy.Contract.Accepted.{validate_resolver_response-ok}
use mongres.Policy.Apply.{apply_resolution}
use mongres.Policy.Apply.Progress.{apply_resolution-delete}
use mongres.Policy.Audit.{from_ratio}
use mongres.Proxy.Ambiguity.{
  AuditContext, AuditLog, ResolvedWrite, accept, resolve_single_ambiguity, resolve_write_plan,
  has_executable_candidate,
}

module _ (resolve : ResolverRequest → Result ProxyError ResolverResponse) (show_f64 : F64 → String)
    (scaled : F64 → Option ℕ) (plan : StatementPlan) (schema : SchemaProfile)
    (minimum_confidence : F64) where
  -- How one ambiguity was decided: the resolver answered the request for it with a response that
  -- passed the check, whose candidate is allowed and applies.
  pub record Decided (a : WriteAmbiguity) (out : StatementPlan) : Type 0 where
    pub operation : WriteOperation
    pub response : ResolverResponse
    pub is_write : write_operation plan ≡ ok operation
    pub answered :
        resolve (resolver_request show_f64 plan operation schema.profile_version a) ≡ ok response
    pub well_formed :
        is_malformed
          (resolver_request show_f64 plan operation schema.profile_version a)
          response
          minimum_confidence
        ≡ false
    pub allowed : contains response.candidate (allowed_candidates plan a) ≡ true
    pub applied :
        apply_resolution plan (record { field_path = a.field_path; candidate = response.candidate })
        ≡ ok out

  -- The two ways to an executable plan.
  pub record Approved (r : ResolvedWrite) : Type 0 where
    pub how :
        ((detect_write_ambiguities plan schema ≡ ok [])
          × (r.plan ≡ plan)
          × (r.audit_context ≡ none))
        ⊎ ((a : WriteAmbiguity) × (context : AuditContext) × (detect_write_ambiguities plan schema
              ≡ ok (a ∷ []))
            × (r.audit_context ≡ some context)
            × Decided a r.plan)

  accept-ok :
      (operation : WriteOperation) (a : WriteAmbiguity) (request : ResolverRequest)
      (response : ResolverResponse) (resolution : ValidatedResolution) (out : StatementPlan)
      (r : ResolvedWrite)
      → accept resolve show_f64 scaled operation a request response resolution out ≡ ok r
      → (r.plan ≡ out) × ((context : AuditContext) × (r.audit_context ≡ some context))
  unfolding accept
  accept-ok operation a request response resolution out r e =
      elim (Option-cases (from_ratio scaled response.confidence)) [
        | inl invalid ↦ absurd (ground (arith, invalid))
        | inr (c, valid) ↦
            let same = ok_injective (rw (valid, accept) at e) in
            (
              ap (λ (w : ResolvedWrite). w.plan) (sym same),
              (_, ap (λ (w : ResolvedWrite). w.audit_context) (sym same)),
            )
      ]

  decided :
      (operation : WriteOperation) (a : WriteAmbiguity) (request : ResolverRequest)
      (response : ResolverResponse) (resolution : ValidatedResolution) (out : StatementPlan)
      (log log' : AuditLog) (r : ResolvedWrite)
      → write_operation plan ≡ ok operation
      → resolve request ≡ ok response
      → validate_resolver_response request plan a response minimum_confidence ≡ ok resolution
      → apply_resolution plan resolution ≡ ok out
      → request ≡ resolver_request show_f64 plan operation schema.profile_version a
      → accept resolve show_f64 scaled operation a request response resolution out ≡ ok r
      → log' ≡ log
      → (log' ≡ log)
        × ((context : AuditContext) × (r.audit_context ≡ some context))
        × Decided a r.plan
  decided operation a request response resolution out log log' r w answered accepted applied asked e
        l =
      let (well_formed, allowed, for_a) =
        validate_resolver_response-ok request plan a response minimum_confidence resolution
          accepted in
      let (same_plan, context) = accept-ok operation a request response resolution out r e in
      (
        l,
        context,
        record {
          operation = operation;
          response = response;
          is_write = w;
          answered = ap resolve (sym asked) ∙ answered;
          well_formed =
              ap (λ q. is_malformed q response minimum_confidence) (sym asked) ∙ well_formed;
          allowed = allowed;
          applied = ap (apply_resolution plan) (sym for_a) ∙ (applied ∙ ap ok (sym same_plan));
        },
      )

  single-Decided :
      (operation : WriteOperation) (a : WriteAmbiguity) (log log' : AuditLog) (r : ResolvedWrite)
      → write_operation plan ≡ ok operation
      → resolve_single_ambiguity resolve show_f64 scaled plan schema minimum_confidence operation a
          log
        ≡ (ok r, log')
      → (log' ≡ log)
        × ((context : AuditContext) × (r.audit_context ≡ some context))
        × Decided a r.plan
  unfolding resolve_single_ambiguity
  single-Decided operation a log log' r w e =
      let request = resolver_request show_f64 plan operation schema.profile_version a in
      elim (Bool-cases (has_executable_candidate request.allowed_candidates)) [
        | inr none_left ↦ absurd (ground (arith, none_left))
        | inl executable ↦ elim (Result-cases (resolve request)) [
          | inr (x, unavailable) ↦ absurd (ground (arith, executable, unavailable))
          | inl (response, answered) ↦
              elim (Result-cases
                (validate_resolver_response request plan a response minimum_confidence)) [
                  | inr (x, refused) ↦ absurd (ground (arith, executable, answered, refused))
                  | inl (resolution, accepted) ↦
                      elim (Result-cases (apply_resolution plan resolution)) [
                        | inr (x, rejected) ↦
                            absurd (ground (arith, executable, answered, accepted, rejected))
                        | inl (out, applied) ↦
                            decided operation a request response resolution out log log' r w
                              answered accepted applied refl
                              (ground (arith, executable, answered, accepted, applied))
                              (ground (arith, executable, answered, accepted, applied))
                      ]
                ]
        ]
      ]

  plan_cases :
      (found : Result ProxyError (List WriteAmbiguity)) (log log' : AuditLog) (r : ResolvedWrite)
      → detect_write_ambiguities plan schema ≡ found
      → resolve_write_plan resolve show_f64 scaled plan schema minimum_confidence log ≡ (ok r, log')
      → (log' ≡ log) × Approved r
  unfolding resolve_write_plan
  plan_cases (err x) log log' r d e = absurd (ground (arith, d))
  plan_cases (ok []) log log' r d e =
      (ground (arith, d), record { how = inl (d, ground (arith, d), ground (arith, d)) })
  plan_cases (ok (a ∷ b ∷ more)) log log' r d e = elim (Result-cases (write_operation plan)) [
    | inl (operation, w) ↦ absurd (ground (arith, d, w))
    | inr (x, w) ↦ absurd (ground (arith, d, w))
  ]
  plan_cases (ok (a ∷ [])) log log' r d e = elim (Result-cases (write_operation plan)) [
    | inr (x, w) ↦ absurd (ground (arith, d, w))
    | inl (operation, w) ↦
        let (l, (context, has_context), how) =
          single-Decided operation a log log' r w (ground (arith, d, w)) in
        (l, record { how = inr (a, context, d, has_context, how) })
  ]

  -- A plan that `resolve_write_plan` returns is approved, and nothing is recorded: either detection
  -- found no ambiguity and the plan is unchanged, or it found exactly one, and the resolver answered
  -- the request for it with a well-formed response whose candidate is in the allowlist and applies to
  -- the plan with this result.
  pub resolve_write_plan-Approved :
      (log log' : AuditLog) (r : ResolvedWrite)
      → resolve_write_plan resolve show_f64 scaled plan schema minimum_confidence log ≡ (ok r, log')
      → (log' ≡ log) × Approved r
  resolve_write_plan-Approved log log' r e =
      plan_cases (detect_write_ambiguities plan schema) log log' r refl e

-- Whatever the resolver answers, a DELETE for which `resolve_write_plan` returns a plan has no
-- ambiguity, and the returned plan is the given one.
pub resolve_write_plan-delete :
    (resolve : ResolverRequest → Result ProxyError ResolverResponse) (show_f64 : F64 → String)
    (scaled : F64 → Option ℕ) (plan : DeletePlan) (schema : SchemaProfile) (minimum : F64)
    (log log' : AuditLog) (r : ResolvedWrite)
    → resolve_write_plan resolve show_f64 scaled (delete plan) schema minimum log ≡ (ok r, log')
    → (detect_write_ambiguities (delete plan) schema ≡ ok []) × (r.plan ≡ delete plan)
resolve_write_plan-delete resolve show_f64 scaled plan schema minimum log log' r e =
    let approved =
      (resolve_write_plan-Approved resolve show_f64 scaled (delete plan) schema minimum log log' r
        e).1 in
    elim (approved.how) [
      | inl (clear, same, _) ↦ (clear, same)
      | inr (a, _, _, _, how) ↦ absurd (
          not_ok
            (apply_resolution (delete plan)
              (record { field_path = a.field_path; candidate = how.response.candidate }))
            (apply_resolution-delete plan _) how.applied)
    ]
  where
    not_ok :
        (m : Result ProxyError StatementPlan) {out : StatementPlan}
        → Fails m ErrorKind.ambiguous_write
        → m ≡ ok out
        → ⊥
    not_ok (ok p) f e = f
    not_ok (err x) f e = cc
