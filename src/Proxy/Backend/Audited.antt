-- ===== src/Proxy/Backend/Audited.antt =====
-- Each query keeps the audit log sound.
pub mod Reached
use mongres.Prelude.{
  ℕ, ◌≤◌, String, Bool, true, List, [], ◌∷◌, ◌++◌, Option, none, some, ◌≡◌, ◌≢◌, refl, arith, All,
  Bool-cases, Option-cases, inl, inr,
}
use mongres.F64.{F64}
use mongres.Bson.{BsonApi}
use mongres.BTree.{contains, get}
use mongres.Order.Text.{text_ord}
use mongres.Common.{Result, ok, err, ProxyError}
use mongres.Common.Results.{Result-cases}
use mongres.Schema.{SchemaProfile}
use mongres.Catalog.{CollectionCatalog}
use mongres.Plan.{
  collection_from_plan, SqlValue, SelectPlan, StatementPlan, select, insert, update, delete,
}
use mongres.Policy.{
  ResolutionCandidate, reject, candidate_ord, ResolverRequest, ResolverResponse, WriteAmbiguity,
}
use mongres.Policy.Audit.{
  ResolverConfidence, AuditOutcome, executed, blocked, AmbiguityAuditRecord, AuditOperation,
  AuditFailure,
}
use mongres.Executor.Outcome.{WriteOutcome}
use mongres.Executor.Run.{Driver, execute_select, execute_write}
use mongres.Sql.Ast.{Statement}
use mongres.Proxy.Ambiguity.{
  AuditContext, AuditLog, ResolvedWrite, record_entry, record_blocked, record_execution,
  record_mongo_execution_failure,
}
use mongres.Proxy.Ambiguity.Logged.{ContextsAreSound, GateIsSound, resolve_write_plan-GateIsSound}
use mongres.Proxy.Wire.{BsonCase}
use mongres.Proxy.Session.{catalog_or_session_query}
use mongres.Proxy.Statement.{schema_for_plan_from_profiles}
use mongres.Proxy.Backend.{
  Backend, catalog_for_collection, read_answer, answer_select, written_answer, resolved_answer,
  answer_write, execute_plan, run_plan, execute, execute_bound,
}

-- A write was decided for: an allowed candidate other than rejection, with a confidence of at most
-- 10,000 basis points.
abbrev pub WasDecided : AmbiguityAuditRecord → Type 0
WasDecided r =
    (c : ResolutionCandidate) × (k : ResolverConfidence) × (r.selected_candidate ≡ some c)
    × (contains c r.allowed_candidates ≡ true)
    × (c ≢ reject)
    × (r.confidence ≡ some k)
    × (k.basis_points ≤ 10000)

abbrev OutcomeIsSound : AmbiguityAuditRecord → AuditOutcome → Type 0
OutcomeIsSound r (executed counts) = WasDecided r
OutcomeIsSound r (blocked failure) = Unit {0}

module _ (profiles : List (String × SchemaProfile)) where
  -- The version is that of a configured profile.
  abbrev pub IsVersion : ℕ → Type 0
  IsVersion version =
      (collection : String) × (schema : SchemaProfile) × (get collection profiles ≡ some schema)
      × (version ≡ schema.profile_version)

  -- A record is on a configured profile, and one of an executed write was decided for.
  abbrev pub RecordIsSound : AmbiguityAuditRecord → Type 0
  RecordIsSound r = IsVersion r.schema_profile_version × OutcomeIsSound r r.outcome

  abbrev pub LogIsSound : AuditLog → Type 0
  LogIsSound log = All RecordIsSound log.records

  All-snoc :
      (records : List AmbiguityAuditRecord) (r : AmbiguityAuditRecord)
      → All RecordIsSound records
      → RecordIsSound r
      → All RecordIsSound (records ++ r ∷ [])
  All-snoc [] r h sound = (sound, tt)
  All-snoc (s ∷ records) r (here, h) sound = (here, All-snoc records r h sound)

  record_entry_sound :
      (r : AmbiguityAuditRecord) (log : AuditLog)
      → LogIsSound log
      → RecordIsSound r
      → LogIsSound (record_entry r log)
  unfolding record_entry
  record_entry_sound r log h sound = elim (Bool-cases log.poisoned) [
    | inl poisoned ↦ rw (record_entry, poisoned) h
    | inr open_log ↦ rw (record_entry, open_log) (All-snoc log.records r h sound)
  ]

  module _ (schema : SchemaProfile) (version : IsVersion schema.profile_version) where
    record_blocked_sound :
        (operation : AuditOperation) (ambiguities : List WriteAmbiguity)
        (allowed : List ResolutionCandidate) (failure : AuditFailure) (log : AuditLog)
        → LogIsSound log
        → LogIsSound (record_blocked schema operation ambiguities allowed failure log)
    unfolding record_blocked
    record_blocked_sound operation ambiguities allowed failure log h =
        record_entry_sound _ log h (version, tt)

    record_execution_sound :
        (context : Option AuditContext) (outcome : WriteOutcome) (log : AuditLog)
        → ContextsAreSound context
        → LogIsSound log
        → LogIsSound (record_execution schema context outcome log)
    unfolding record_execution
    record_execution_sound none outcome log sound h = h
    record_execution_sound (some c) outcome log sound h = record_entry_sound _ log h (
      version,
      (c.selected_candidate, c.confidence, refl, sound.allowed, sound.live, refl, sound.ratio),
    )

    record_failure_sound :
        (context : Option AuditContext) (log : AuditLog)
        → LogIsSound log
        → LogIsSound (record_mongo_execution_failure schema context log)
    unfolding record_mongo_execution_failure
    record_failure_sound none log h = h
    record_failure_sound (some c) log h = record_entry_sound _ log h (version, tt)

some_of_schema :
    (plan : StatementPlan) (profiles : List (String × SchemaProfile)) (schema : SchemaProfile)
    → schema_for_plan_from_profiles plan profiles ≡ ok schema
    → get (collection_from_plan plan) profiles ≡ some schema
unfolding schema_for_plan_from_profiles
some_of_schema plan profiles schema h =
    elim (Option-cases (get (collection_from_plan plan) profiles)) [
      | inl missing ↦ absurd (ground (arith, missing))
      | inr (other, found) ↦ ground (arith, found)
    ]

module _ (api : BsonApi) (view : api.Bson → BsonCase) (driver : Driver api)
    (resolve : ResolverRequest → Result ProxyError ResolverResponse) (show_f64 : F64 → String)
    (scaled : F64 → Option ℕ) (parse_statements : String → Result String (List Statement))
    (parse_f64 : String → Option F64) (backend : Backend) where
  open api use {Document}
  open driver use {World}

  abbrev Sound : AuditLog → Type 0
  Sound log = LogIsSound backend.profiles log

  written-Sound :
      (schema : SchemaProfile) (resolved : ResolvedWrite)
      (r : Result ProxyError WriteOutcome × World) (log : AuditLog)
      → IsVersion backend.profiles schema.profile_version
      → ContextsAreSound resolved.audit_context
      → Sound log
      → Sound (written_answer schema resolved r log).1.0
  unfolding written_answer
  written-Sound schema resolved (ok outcome, w) log version sound h =
      record_execution_sound backend.profiles schema version resolved.audit_context outcome log
        sound h
  written-Sound schema resolved (err e, w) log version sound h =
      record_failure_sound backend.profiles schema version resolved.audit_context log h

  resolved-Sound :
      (plan : StatementPlan) (schema : SchemaProfile) (log : AuditLog)
      (r : Result ProxyError ResolvedWrite × AuditLog) (w : World)
      → IsVersion backend.profiles schema.profile_version
      → GateIsSound plan schema log r
      → Sound log
      → Sound
          (resolved_answer api view driver resolve show_f64 scaled parse_statements parse_f64
            backend schema r w).1.0
  unfolding resolved_answer GateIsSound
  resolved-Sound plan schema log (ok resolved, log') w version (same, _, sound) h =
      written-Sound schema resolved (execute_write api driver resolved.plan w) log' version sound
        (rw same h)
  resolved-Sound plan schema log (err e, log') w version (inl same) h = rw same h
  resolved-Sound plan schema log (err e, log') w version
        (inr (operation, ambiguities, allowed, failure, added)) h =
      rw added (
        record_blocked_sound backend.profiles schema version operation ambiguities allowed failure
          log h)

  answer_write-Sound :
      (plan : StatementPlan) (log : AuditLog) (w : World)
      → Sound log
      → Sound
          (answer_write api view driver resolve show_f64 scaled parse_statements parse_f64 backend
            plan log w).1.0
  unfolding answer_write
  answer_write-Sound plan log w h =
      elim (Result-cases (schema_for_plan_from_profiles plan backend.profiles)) [
        | inr (e, missing) ↦ rw (answer_write, missing) h
        | inl (schema, found) ↦
            rw (answer_write, found)
              (resolved-Sound plan schema log _ w
                (
                  collection_from_plan plan,
                  schema,
                  some_of_schema plan backend.profiles schema found,
                  refl,
                )
                (resolve_write_plan-GateIsSound resolve show_f64 scaled plan schema
                  backend.minimum_confidence log)
                h)
      ]

  -- A SELECT leaves the log alone.
  answer_select-log :
      (plan : SelectPlan) (log : AuditLog) (w : World)
      → (answer_select api view driver resolve show_f64 scaled parse_statements parse_f64 backend
          plan log w).1.0
        ≡ log
  unfolding answer_select
  answer_select-log plan log w =
      elim (Result-cases (catalog_for_collection backend.catalog plan.collection)) [
        | inr (e, missing) ↦ rw (answer_select, missing) refl
        | inl (c, found) ↦ rw (answer_select, found) (read c (execute_select api driver plan w))
      ]
    where
      read :
          (c : CollectionCatalog) (r : Result ProxyError (List Document) × World)
          → (read_answer api view plan c r log).1.0 ≡ log
      read c (ok documents, w') = refl
      read c (err e, w') = refl

  execute_plan-Sound :
      (plan : StatementPlan) (log : AuditLog) (w : World)
      → Sound log
      → Sound
          (execute_plan api view driver resolve show_f64 scaled parse_statements parse_f64 backend
            plan log w).1.0
  unfolding execute_plan
  execute_plan-Sound (select plan) log w h = rw (answer_select-log plan log w) h
  execute_plan-Sound (insert plan) log w h = answer_write-Sound (insert plan) log w h
  execute_plan-Sound (update plan) log w h = answer_write-Sound (update plan) log w h
  execute_plan-Sound (delete plan) log w h = answer_write-Sound (delete plan) log w h

  run_plan-Sound :
      (r : Result ProxyError StatementPlan) (log : AuditLog) (w : World)
      → Sound log
      → Sound
          (run_plan api view driver resolve show_f64 scaled parse_statements parse_f64 backend r log
            w).1.0
  run_plan-Sound (ok plan) log w h = execute_plan-Sound plan log w h
  run_plan-Sound (err e) log w h = h

  pub execute-Sound :
      (query : String) (log : AuditLog) (w : World)
      → Sound log
      → Sound
          (execute api view driver resolve show_f64 scaled parse_statements parse_f64 backend query
            log w).1.0
  unfolding execute
  execute-Sound query log w h =
      elim (Option-cases (catalog_or_session_query backend.database_name backend.catalog query)) [
        | inr (answer, given) ↦ rw (execute, given) h
        | inl none_given ↦ rw (execute, none_given) (run_plan-Sound _ log w h)
      ]

  pub execute_bound-Sound :
      (query : String) (parameters : List SqlValue) (log : AuditLog) (w : World)
      → Sound log
      → Sound
          (execute_bound api view driver resolve show_f64 scaled parse_statements parse_f64 backend
            query parameters log w).1.0
  unfolding execute_bound
  execute_bound-Sound query parameters log w h =
      elim (Option-cases (catalog_or_session_query backend.database_name backend.catalog query)) [
        | inr (answer, given) ↦ rw (execute_bound, given) h
        | inl none_given ↦ rw (execute_bound, none_given) (run_plan-Sound _ log w h)
      ]
