-- ===== src/Policy/Contract/Accepted.antt =====
-- What an accepted response has passed.
use mongres.Prelude.{ℕ, ◌≤◌, String, len, true, false, ◌≡◌, ◌↔◌, refl, ==_iff, ◌==◌, ltb, arith}
use mongres.F64.{F64, is_finite, less, one_f64}
use mongres.Order.{◌=ₖ◌, =ₖ_sound, =ₖ_refl}
use mongres.Order.Derived.{list_ord}
use mongres.Order.Text.{text_ord}
use mongres.Text.{is_empty}
use mongres.BTree.{contains}
use mongres.Common.{ok}
use mongres.Plan.{StatementPlan}
use mongres.Policy.{
  WriteAmbiguity, WriteOperation, operation_eq, candidate_ord, ValidatedResolution, ResolverRequest,
  ResolverResponse,
}
use mongres.Policy.Candidates.{allowed_candidates, validate_resolution}
use mongres.Policy.Contract.{
  resolver_request, resolution_contract_version, is_malformed, validate_resolver_response,
}

-- What an accepted response has passed, as the code's tests.
pub validate_resolver_response-ok :
    (request : ResolverRequest) (plan : StatementPlan) (a : WriteAmbiguity)
    (response : ResolverResponse) (minimum : F64) (resolution : ValidatedResolution)
    → validate_resolver_response request plan a response minimum ≡ ok resolution
    → (is_malformed request response minimum ≡ false)
      × (contains response.candidate (allowed_candidates plan a) ≡ true)
      × (resolution ≡ record { field_path = a.field_path; candidate = response.candidate })
unfolding validate_resolver_response validate_resolution
validate_resolver_response-ok request plan a response minimum resolution e =
    (ground arith, ground arith, ground arith)

-- A response that answers the request about an ambiguity of a write: it repeats the contract, the
-- version of the profile, the operation and the path, its confidence is finite, not below the minimum
-- and not above 1, its rationale has 1 to 500 bytes, and its candidate is one of the request.
pub record Answers (request : ResolverRequest) (a : WriteAmbiguity) (operation : WriteOperation)
    (version : ℕ) (minimum : F64) (response : ResolverResponse) : Type 0 where
  pub contract : response.contract_version ≡ request.contract_version
  pub same_version : response.schema_profile_version ≡ version
  pub same_operation : response.operation ≡ operation
  pub same_path : response.target_path ≡ a.field_path
  pub finite : is_finite response.confidence ≡ true
  pub at_least : less response.confidence minimum ≡ false
  pub at_most_one : less one_f64 response.confidence ≡ false
  pub has_rationale : is_empty response.rationale ≡ false
  pub short_rationale : len response.rationale ≤ 500
  pub offered : contains response.candidate request.allowed_candidates ≡ true

operation_eq_sound : (x y : WriteOperation) → operation_eq x y ≡ true → x ≡ y
operation_eq_sound x y h = ground arith

operation_eq_refl : (x : WriteOperation) → operation_eq x x ≡ true
operation_eq_refl x = ground arith

module _ (show_f64 : F64 → String) (plan : StatementPlan) (operation : WriteOperation) (version : ℕ)
    (a : WriteAmbiguity) (response : ResolverResponse) (minimum : F64) where
  abbrev request : ResolverRequest
  request = resolver_request show_f64 plan operation version a

  Answers-of_accepted :
      is_malformed request response minimum ≡ false
      → contains response.candidate (allowed_candidates plan a) ≡ true
      → Answers request a operation version minimum response
  unfolding is_malformed resolver_request
  Answers-of_accepted h offered = record {
    contract = ground (arith, =ₖ_sound response.contract_version resolution_contract_version);
    same_version = ground arith;
    same_operation = operation_eq_sound response.operation operation (ground arith);
    same_path = =ₖ_sound response.target_path a.field_path (ground arith);
    finite = ground arith;
    at_least = ground arith;
    at_most_one = ground arith;
    has_rationale = ground arith;
    short_rationale = ground arith;
    offered = offered;
  }

  accepted_of_Answers :
      Answers request a operation version minimum response
      → is_malformed request response minimum ≡ false
  unfolding is_malformed resolver_request
  accepted_of_Answers answers =
      let contract : (response.contract_version =ₖ resolution_contract_version) ≡ true =
        rw (answers.contract) (=ₖ_refl resolution_contract_version) in
      let same_version : (response.schema_profile_version == version) ≡ true =
        (==_iff response.schema_profile_version version).1 answers.same_version in
      let same_operation : operation_eq response.operation operation ≡ true =
        rw (answers.same_operation) (operation_eq_refl operation) in
      let same_path : (response.target_path =ₖ a.field_path) ≡ true =
        rw (answers.same_path) (=ₖ_refl a.field_path) in
      let short : ltb 500 (len response.rationale) ≡ false =
        ground (arith, answers.short_rationale) in
      rw
        (
          is_malformed, contract, same_version, same_operation, same_path, answers.finite,
          answers.at_least, answers.at_most_one, answers.has_rationale, short,
        )
        refl

  -- `validate_resolver_response` accepts a response to the request that `resolver_request` makes of an
  -- ambiguity exactly if the response repeats the contract, the version of the profile, the operation
  -- and the path, its confidence is finite and from the minimum to 1, its rationale has 1 to 500 bytes,
  -- and its candidate is one that the request offers. The resolution is then that candidate for the
  -- field of the ambiguity.
  pub validate_resolver_response_iff :
      (resolution : ValidatedResolution)
      → (validate_resolver_response request plan a response minimum ≡ ok resolution) ↔ (
          Answers request a operation version minimum response
          × (resolution ≡ record { field_path = a.field_path; candidate = response.candidate }))
  unfolding validate_resolver_response validate_resolution resolver_request
  validate_resolver_response_iff resolution = (
    λ e.
        let (formed, offered, made) =
          validate_resolver_response-ok request plan a response minimum resolution e in
        (Answers-of_accepted formed offered, made),
    λ (answers, made). ground (arith, accepted_of_Answers answers, answers.offered, made),
  )
