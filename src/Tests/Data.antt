-- ===== src/Tests/Data.antt =====
-- The test data: a collection `users` with a field of mixed types, and statements on it.
use mongres.Prelude.{ℕ, String, false, List, [], ◌∷◌, Option, some}
use mongres.Prelude.Int.{pos}
use mongres.F64.{F64, one_f64}
use mongres.Common.{Result, ok, ProxyError}
use mongres.Schema.{FieldPath, FieldProfile, SchemaProfile, ObservedType, ObservedShape}
use mongres.Schema.Sample.{SampleDocument, SampleValue, end, entry}
use mongres.Plan.{SqlValue, Predicate, compare, equal, DeletePlan, StatementPlan, update}
use mongres.Policy.{
  WriteAmbiguity, AmbiguityKind, WriteOperation, ResolutionCandidate, ResolverRequest,
  ResolverResponse, ValidatedResolution,
}
use mongres.Policy.Contract.{resolution_contract_version}
use mongres.Proxy.Ambiguity.{AuditLog}

abbrev pub age : FieldPath
age = "age" ∷ []

abbrev pub name_path : FieldPath
name_path = "name" ∷ []

abbrev pub age_field : FieldProfile
age_field = record {
  path = age;
  present_documents = 2;
  missing_documents = 0;
  observed_types = ObservedType.integer ∷ ObservedType.string ∷ [];
  observed_shapes = ObservedShape.scalar ∷ [];
  has_dotted_key_collision = false;
}

abbrev pub name_field : FieldProfile
name_field = record {
  path = name_path;
  present_documents = 2;
  missing_documents = 0;
  observed_types = ObservedType.string ∷ [];
  observed_shapes = ObservedShape.scalar ∷ [];
  has_dotted_key_collision = false;
}

abbrev pub users : SchemaProfile
users = record { profile_version = 1; sampled_documents = 2; fields = age_field ∷ name_field ∷ [] }

abbrev pub by_name : SqlValue → Predicate
by_name v = compare name_path equal v

-- UPDATE users SET age = <value> WHERE name = <name>
abbrev pub set_age : SqlValue → SqlValue → StatementPlan
set_age value name = update (record {
  collection = "users";
  assignments = record { path = age; value = value } ∷ [];
  filter = by_name name;
})

-- DELETE FROM users WHERE name = 'ann'
abbrev pub delete_plan : DeletePlan
delete_plan = record { collection = "users"; filter = by_name (SqlValue.string "ann") }

abbrev pub prepared : StatementPlan
prepared = set_age (SqlValue.placeholder "$1") (SqlValue.placeholder "$2")

abbrev pub age_as_text : StatementPlan
age_as_text = set_age (SqlValue.string "42") (SqlValue.string "ann")

abbrev pub age_as_number : StatementPlan
age_as_number = set_age (SqlValue.integer (pos 42)) (SqlValue.string "ann")

abbrev pub parameters : List SqlValue
parameters = SqlValue.string "42" ∷ SqlValue.string "ann" ∷ []

abbrev pub ambiguity : WriteAmbiguity
ambiguity = record {
  field_path = age;
  kinds = AmbiguityKind.mixed_bson_types ∷ [];
  observed_types = ObservedType.integer ∷ ObservedType.string ∷ [];
  observed_shapes = ObservedShape.scalar ∷ [];
  missing_documents = 0;
}

abbrev pub response : ResolutionCandidate → ResolverResponse
response candidate = record {
  contract_version = resolution_contract_version;
  schema_profile_version = 1;
  operation = WriteOperation.update;
  target_path = "age" ∷ [];
  candidate = candidate;
  confidence = one_f64;
  rationale = "a number";
}

abbrev pub decision : ResolutionCandidate → ValidatedResolution
decision candidate = record { field_path = age; candidate = candidate }

-- A resolver with one answer, a print of `f64` and a scaling that knows the ratio 1.
abbrev pub answer : ResolutionCandidate → ResolverRequest → Result ProxyError ResolverResponse
answer candidate request = ok (response candidate)

abbrev pub show : F64 → String
show x = "float"

abbrev pub scale : F64 → Option ℕ
scale x = some 10000

abbrev pub no_records : AuditLog
no_records = record { poisoned = false; records = [] }

-- { "age": 3, "address": { "city": "x" } }
abbrev pub document : SampleDocument
document =
    entry "address" (SampleValue.document (entry "city" (SampleValue.string "x") end))
      (entry "age" (SampleValue.integer (pos 3)) end)
