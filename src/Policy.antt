-- ===== src/Policy.antt =====
-- crates/ambiguity-policy/src/lib.rs: the data of the write-ambiguity policy. Detection is in
-- Policy/Detect.antt, the candidate allowlist in Policy/Candidates.antt, the request to the resolver
-- and the check of its answer in Policy/Contract.antt, the application of a decision in
-- Policy/Apply.antt, the audit records in Policy/Audit.antt.
mod Kinds
pub mod Detect
pub mod Candidates
pub mod Contract
pub mod Apply
pub mod Audit
unfoldable pub use Kinds.*
use mongres.Prelude.{ℕ, String, Bool, List, Option}
use mongres.F64.{F64}
use mongres.Schema.{FieldPath, ObservedType, ObservedShape}

-- `WriteAmbiguity`
pub record WriteAmbiguity : Type 0 where
  pub field_path : FieldPath
  pub kinds : List AmbiguityKind
  pub observed_types : List ObservedType
  pub observed_shapes : List ObservedShape
  pub missing_documents : ℕ

-- `ValidatedResolution`
pub record ValidatedResolution : Type 0 where
  pub field_path : FieldPath
  pub candidate : ResolutionCandidate

-- `ResolverWriteValueEvidence`
pub record ResolverWriteValueEvidence : Type 0 where
  pub sql_type : String
  pub value_preview : Option String

-- `ResolverAmbiguityEvidence`
pub record ResolverAmbiguityEvidence : Type 0 where
  pub kinds : List AmbiguityKind
  pub observed_types : List String
  pub observed_shapes : List String
  pub missing_documents : ℕ

-- `ResolverRequest`
pub record ResolverRequest : Type 0 where
  pub contract_version : String
  pub schema_profile_version : ℕ
  pub operation : WriteOperation
  pub target_path : List String
  pub write_value : Option ResolverWriteValueEvidence
  pub ambiguity : ResolverAmbiguityEvidence
  pub allowed_candidates : List ResolutionCandidate

-- `ResolverResponse`
pub record ResolverResponse : Type 0 where
  pub contract_version : String
  pub schema_profile_version : ℕ
  pub operation : WriteOperation
  pub target_path : List String
  pub candidate : ResolutionCandidate
  pub confidence : F64
  pub rationale : String
