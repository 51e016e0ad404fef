-- ===== src/Proxy/Backend/Untouched.antt =====
-- When the proxy leaves the database alone.
use mongres.Prelude.{ℕ, String, List, Option, ◌≡◌, refl, sym, subst, Option-cases, inl, inr}
use mongres.F64.{F64}
use mongres.Bson.{BsonApi}
use mongres.Common.{Result, ok, err, ProxyError}
use mongres.Common.Results.{Result-cases}
use mongres.Schema.{SchemaProfile}
use mongres.Plan.{SqlValue, SelectPlan, StatementPlan, select, insert, update, delete}
use mongres.Policy.{ResolverRequest, ResolverResponse}
use mongres.Executor.Outcome.{WriteOutcome}
use mongres.Executor.Run.{Driver, finish, database_error, execute_select, execute_write}
use mongres.Executor.Run.Validated.{LeavesAlone, before-LeavesAlone, execute_write-LeavesAlone}
use mongres.Sql.Ast.{Statement}
use mongres.Proxy.Ambiguity.{AuditLog, ResolvedWrite}
use mongres.Proxy.Wire.{BsonCase, ExecutionResult, CommandResult, command_result}
use mongres.Proxy.Session.{catalog_or_session_query}
use mongres.Proxy.Statement.{schema_for_plan_from_profiles}
use mongres.Catalog.{CollectionCatalog}
use mongres.Proxy.Backend.{
  Backend, Answer, catalog_for_collection, read_answer, answer_select, command_answer,
  written_answer, resolved_answer, answer_write, execute_plan, run_plan, execute_bound,
}

-- An answer with an error of another kind than `database` leaves the world as it was.
unfoldable pub AnswerLeavesAlone : {W A : Type 0} → Answer W A → W → Type 0
AnswerLeavesAlone (r, (log, w')) w = LeavesAlone (r, w') w

module _ (api : BsonApi) (view : api.Bson → BsonCase) (driver : Driver api)
    (resolve : ResolverRequest → Result ProxyError ResolverResponse) (show_f64 : F64 → String)
    (scaled : F64 → Option ℕ) (parse_statements : String → Result String (List Statement))
    (parse_f64 : String → Option F64) (backend : Backend) where
  open api use {Document}
  open driver use {World}

  unmoved :
      {A : Type 0} (r : Result ProxyError A) (log : AuditLog) (w : World)
      → AnswerLeavesAlone (r, (log, w)) w
  unfolding AnswerLeavesAlone LeavesAlone
  unmoved (ok a) log w = tt
  unmoved (err e) log w = λ k. refl

  finish_read-LeavesAlone :
      (r : Result String (List Document) × World) (w : World)
      → LeavesAlone (finish database_error (λ documents. documents) r) w
  unfolding LeavesAlone finish
  finish_read-LeavesAlone (ok ds, w') w = tt
  finish_read-LeavesAlone (err e, w') w = λ k. absurd (k refl)

  execute_select-LeavesAlone :
      (plan : SelectPlan) (w : World) → LeavesAlone (execute_select api driver plan w) w
  unfolding execute_select
  execute_select-LeavesAlone plan w = before-LeavesAlone _ _ w λ filter.
      before-LeavesAlone _ _ w
        λ projection. before-LeavesAlone _ _ w λ limit. finish_read-LeavesAlone _ w

  read-LeavesAlone :
      (plan : SelectPlan) (c : CollectionCatalog) (r : Result ProxyError (List Document) × World)
      (log : AuditLog) (w : World)
      → LeavesAlone r w
      → AnswerLeavesAlone (read_answer api view plan c r log) w
  unfolding AnswerLeavesAlone LeavesAlone
  read-LeavesAlone plan c (ok ds, w') log w h = tt
  read-LeavesAlone plan c (err e, w') log w h = h

  answer_select-LeavesAlone :
      (plan : SelectPlan) (log : AuditLog) (w : World)
      → AnswerLeavesAlone
          (answer_select api view driver resolve show_f64 scaled parse_statements parse_f64 backend
            plan log w)
          w
  unfolding answer_select
  answer_select-LeavesAlone plan log w =
      elim (Result-cases (catalog_for_collection backend.catalog plan.collection)) [
        | inr (e, missing) ↦ rw (answer_select, missing) (unmoved (err e) log w)
        | inl (c, found) ↦
            rw (answer_select, found)
              (read-LeavesAlone plan c (execute_select api driver plan w) log w
                (execute_select-LeavesAlone plan w))
      ]

  -- A write that is done has a command result.
  done_write :
      (plan : StatementPlan) (w w' : World) (outcome : WriteOutcome)
      → execute_write api driver plan w ≡ (ok outcome, w')
      → (c : CommandResult) × (command_result plan outcome ≡ ok c)
  unfolding command_result execute_write
  done_write (select plan) w w' outcome h = cc
  done_write (insert plan) w w' outcome h = (_, refl)
  done_write (update plan) w w' outcome h = (_, refl)
  done_write (delete plan) w w' outcome h = (_, refl)

  written-LeavesAlone :
      (schema : SchemaProfile) (resolved : ResolvedWrite) (log : AuditLog) (w : World)
      (r : Result ProxyError WriteOutcome × World)
      → execute_write api driver resolved.plan w ≡ r
      → AnswerLeavesAlone (written_answer schema resolved r log) w
  unfolding written_answer AnswerLeavesAlone LeavesAlone
  written-LeavesAlone schema resolved log w (ok outcome, w') h =
      let (c, done) = done_write resolved.plan w w' outcome h in
      let shown : command_answer resolved.plan outcome ≡ ok (ExecutionResult.command c) =
        rw (command_answer, done) refl in
      subst (λ (m : Result ProxyError ExecutionResult). LeavesAlone (m, w') w) (sym shown) tt
  written-LeavesAlone schema resolved log w (err e, w') h =
      let alone : LeavesAlone (execute_write api driver resolved.plan w) w =
        execute_write-LeavesAlone api driver resolved.plan w in
      rw h at alone

  resolved-LeavesAlone :
      (schema : SchemaProfile) (r : Result ProxyError ResolvedWrite × AuditLog) (w : World)
      → AnswerLeavesAlone
          (resolved_answer api view driver resolve show_f64 scaled parse_statements parse_f64
            backend schema r w)
          w
  unfolding resolved_answer
  resolved-LeavesAlone schema (ok resolved, log) w =
      written-LeavesAlone schema resolved log w (execute_write api driver resolved.plan w) refl
  resolved-LeavesAlone schema (err e, log) w = unmoved (err e) log w

  answer_write-LeavesAlone :
      (plan : StatementPlan) (log : AuditLog) (w : World)
      → AnswerLeavesAlone
          (answer_write api view driver resolve show_f64 scaled parse_statements parse_f64 backend
            plan log w)
          w
  unfolding answer_write
  answer_write-LeavesAlone plan log w =
      elim (Result-cases (schema_for_plan_from_profiles plan backend.profiles)) [
        | inr (e, missing) ↦ rw (answer_write, missing) (unmoved (err e) log w)
        | inl (schema, found) ↦ rw (answer_write, found) (resolved-LeavesAlone schema _ w)
      ]

  execute_plan-LeavesAlone :
      (plan : StatementPlan) (log : AuditLog) (w : World)
      → AnswerLeavesAlone
          (execute_plan api view driver resolve show_f64 scaled parse_statements parse_f64 backend
            plan log w)
          w
  unfolding execute_plan
  execute_plan-LeavesAlone (select plan) log w = answer_select-LeavesAlone plan log w
  execute_plan-LeavesAlone (insert plan) log w = answer_write-LeavesAlone (insert plan) log w
  execute_plan-LeavesAlone (update plan) log w = answer_write-LeavesAlone (update plan) log w
  execute_plan-LeavesAlone (delete plan) log w = answer_write-LeavesAlone (delete plan) log w

  run_plan-LeavesAlone :
      (r : Result ProxyError StatementPlan) (log : AuditLog) (w : World)
      → AnswerLeavesAlone
          (run_plan api view driver resolve show_f64 scaled parse_statements parse_f64 backend r log
            w)
          w
  run_plan-LeavesAlone (ok plan) log w = execute_plan-LeavesAlone plan log w
  run_plan-LeavesAlone (err e) log w = unmoved (err e) log w

  -- A statement that fails with another kind of error than `database`, in parsing, binding, the gate
  -- of ambiguous writes or the executor, has left the database as it was.
  pub execute_bound-LeavesAlone :
      (query : String) (parameters : List SqlValue) (log : AuditLog) (w : World)
      → AnswerLeavesAlone
          (execute_bound api view driver resolve show_f64 scaled parse_statements parse_f64 backend
            query parameters log w)
          w
  unfolding execute_bound
  execute_bound-LeavesAlone query parameters log w =
      elim (Option-cases (catalog_or_session_query backend.database_name backend.catalog query)) [
        | inr (answer, given) ↦ rw (execute_bound, given) (unmoved _ log w)
        | inl none_given ↦ rw (execute_bound, none_given) (run_plan-LeavesAlone _ log w)
      ]
