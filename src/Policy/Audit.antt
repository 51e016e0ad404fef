-- ===== src/Policy/Audit.antt =====
-- crates/ambiguity-policy/src/audit.rs: redacted audit data. The standard library's arithmetic in
-- `from_ratio`, scaling by 10,000 and rounding an `f64` and reading the print of the result as a
-- `u16`, is the parameter `scaled`.
use mongres.Prelude.{ℕ, String, not, ◌||◌, List, Option, none, some, leb, if◌then◌else◌}
use mongres.F64.{F64, is_finite, less, zero_f64, one_f64}
use mongres.Schema.{display_name}
use mongres.Policy.{AmbiguityKind, ResolutionCandidate, WriteAmbiguity}

-- `AuditOperation`
pub data AuditOperation : Type 0 where
  insert update delete : AuditOperation

-- `RedactedAmbiguity`
pub record RedactedAmbiguity : Type 0 where
  pub field_path : String
  pub kinds : List AmbiguityKind

-- `RedactedAmbiguity::from`
abbrev pub redact : WriteAmbiguity → RedactedAmbiguity
redact a = record { field_path = display_name a.field_path; kinds = a.kinds }

-- `ResolverConfidence`
pub record ResolverConfidence : Type 0 where
  pub basis_points : ℕ

-- `ResolverConfidence::MAX_BASIS_POINTS`
abbrev pub max_basis_points : ℕ
max_basis_points = 10000

-- `ResolverConfidence::from_basis_points`
unfoldable pub from_basis_points : ℕ → Option ResolverConfidence
from_basis_points value =
    if leb value max_basis_points then some (record { basis_points = value }) else none

-- `ResolverConfidence::from_ratio`; `(0.0..=1.0).contains(&value)` is false of a NaN.
unfoldable pub from_ratio : (F64 → Option ℕ) → F64 → Option ResolverConfidence
unfolding from_basis_points
from_ratio scaled value =
    if not (is_finite value) || (less value zero_f64 || less one_f64 value)
    then none
    else elim (scaled value) [ none ↦ none | some points ↦ from_basis_points points ]

-- `AuditWriteCounts`
pub record AuditWriteCounts : Type 0 where
  pub matched : ℕ
  pub modified : ℕ
  pub inserted : ℕ
  pub deleted : ℕ

-- `AuditFailure`
pub data AuditFailure : Type 0 where
  no_safe_resolution resolver_rejected resolver_unavailable resolver_timed_out
        invalid_resolver_response stale_schema_profile low_confidence mongo_execution_failed :
      AuditFailure

-- `AuditOutcome`
pub data AuditOutcome : Type 0 where
  executed : AuditWriteCounts → AuditOutcome
  blocked : AuditFailure → AuditOutcome

-- `AmbiguityAuditRecord`
pub record AmbiguityAuditRecord : Type 0 where
  pub schema_profile_version : ℕ
  pub operation : AuditOperation
  pub ambiguities : List RedactedAmbiguity
  pub allowed_candidates : List ResolutionCandidate
  pub selected_candidate : Option ResolutionCandidate
  pub confidence : Option ResolverConfidence
  pub outcome : AuditOutcome
