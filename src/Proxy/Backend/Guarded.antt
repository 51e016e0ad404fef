-- ===== src/Proxy/Backend/Guarded.antt =====
-- The proxy's access to the database is confined to the configured collections.
use mongres.Prelude.{
  ℕ, String, List, [], ◌∷◌, Option, none, some, ◌≡◌, refl, ap, inl, inr, Option-cases,
}
use mongres.F64.{F64}
use mongres.Bson.{BsonApi}
use mongres.BTree.{get}
use mongres.Order.Text.{text_ord}
use mongres.Common.{Result, ok, err, ProxyError}
use mongres.Common.Results.{Result-cases, >>=-eq-ok}
use mongres.Schema.{SchemaProfile}
use mongres.Plan.{
  SqlValue, SelectPlan, StatementPlan, select, insert, update, delete, collection_from_plan,
}
use mongres.Policy.{ResolverRequest, ResolverResponse}
use mongres.Executor.Run.{
  Driver, before, finish, insert_documents, execute_select, execute_insert, execute_update,
  execute_delete, execute_write,
}
use mongres.Sql.Ast.{Statement}
use mongres.Sql.Lowering.Router.{parse_sql_for_profiles}
use mongres.Sql.Lowering.Routed.{parse_sql_for_profiles-IsRouted}
use mongres.Sql.Lowering.Bound.{bound_parts, bind_plan-keeps}
use mongres.Proxy.Ambiguity.{AuditLog, ResolvedWrite}
use mongres.Proxy.Ambiguity.Logged.{GateIsSound, resolve_write_plan-GateIsSound}
use mongres.Proxy.Wire.{BsonCase}
use mongres.Proxy.Session.{catalog_or_session_query}
use mongres.Proxy.Statement.{schema_for_plan_from_profiles}
use mongres.Proxy.Backend.{
  Backend, catalog_for_collection, read_answer, answer_select, written_answer, resolved_answer,
  answer_write, execute_plan, run_plan, bound_plan, execute_bound,
}

-- The collection is configured.
abbrev pub IsConfigured : List (String × SchemaProfile) → String → Type 0
IsConfigured profiles collection =
    (schema : SchemaProfile) × (get collection profiles ≡ some schema)

-- A call on a configured collection, an error on any other.
unfoldable pub permit :
    {W A : Type 0} → Option SchemaProfile → (W → Result String A × W) → W → Result String A × W
permit none call w = (err "not a configured collection", w)
permit (some schema) call w = call w

-- The driver that refuses every collection but the configured ones.
abbrev pub guarded : (api : BsonApi) → Driver api → List (String × SchemaProfile) → Driver api
guarded api driver profiles = record {
  World = driver.World;
  find =
      λ c filter projection limit. permit (get c profiles) (driver.find c filter projection limit);
  insert_one = λ c d. permit (get c profiles) (driver.insert_one c d);
  insert_many = λ c ds. permit (get c profiles) (driver.insert_many c ds);
  update_many = λ c filter set. permit (get c profiles) (driver.update_many c filter set);
  delete_many = λ c filter. permit (get c profiles) (driver.delete_many c filter);
}

before-cong :
    {W A B : Type 0} (m : Result ProxyError A) (f g : A → W → Result ProxyError B × W) (w : W)
    → ((a : A) → f a w ≡ g a w)
    → before m f w ≡ before m g w
unfolding before
before-cong (ok a) f g w h = h a
before-cong (err e) f g w h = refl

module _ (api : BsonApi) (driver : Driver api) (profiles : List (String × SchemaProfile)) where
  open api use {Document}
  open driver use {World}

  permit-eq :
      {A : Type 0} (c : String) (call : World → Result String A × World) (w : World)
      → IsConfigured profiles c
      → permit (get c profiles) call w ≡ call w
  unfolding permit
  permit-eq c call w (schema, found) = rw found refl

  execute_select-guarded :
      (plan : SelectPlan) (w : World)
      → IsConfigured profiles plan.collection
      → execute_select api (guarded api driver profiles) plan w ≡ execute_select api driver plan w
  unfolding execute_select
  execute_select-guarded plan w configured = before-cong _ _ _ w λ filter.
      before-cong _ _ _ w λ projection.
        before-cong _ _ _ w λ limit. ap (finish _ _) (permit-eq plan.collection _ w configured)

  insert_documents-guarded :
      (c : String) (ds : List Document) (w : World)
      → IsConfigured profiles c
      → insert_documents api (guarded api driver profiles) c ds w
        ≡ insert_documents api driver c ds w
  unfolding insert_documents
  insert_documents-guarded c [] w configured = refl
  insert_documents-guarded c (d ∷ []) w configured = ap (finish _ _) (permit-eq c _ w configured)
  insert_documents-guarded c (d ∷ e ∷ ds) w configured =
      ap (finish _ _) (permit-eq c _ w configured)

  execute_write-guarded :
      (plan : StatementPlan) (w : World)
      → IsConfigured profiles (collection_from_plan plan)
      → execute_write api (guarded api driver profiles) plan w ≡ execute_write api driver plan w
  unfolding execute_write execute_insert execute_update execute_delete collection_from_plan
  execute_write-guarded (select plan) w configured = refl
  execute_write-guarded (insert plan) w configured =
      before-cong _ _ _ w (λ ds. insert_documents-guarded plan.collection ds w configured)
  execute_write-guarded (update plan) w configured = before-cong _ _ _ w λ filter.
      before-cong _ _ _ w λ set. ap (finish _ _) (permit-eq plan.collection _ w configured)
  execute_write-guarded (delete plan) w configured =
      before-cong _ _ _ w λ filter. ap (finish _ _) (permit-eq plan.collection _ w configured)

module _ (api : BsonApi) (view : api.Bson → BsonCase) (driver : Driver api)
    (resolve : ResolverRequest → Result ProxyError ResolverResponse) (show_f64 : F64 → String)
    (scaled : F64 → Option ℕ) (parse_statements : String → Result String (List Statement))
    (parse_f64 : String → Option F64) (backend : Backend) where
  open driver use {World}

  answer_select-guarded :
      (plan : SelectPlan) (log : AuditLog) (w : World)
      → IsConfigured backend.profiles plan.collection
      → answer_select api view
          (guarded api driver backend.profiles)
          resolve
          show_f64
          scaled
          parse_statements
          parse_f64
          backend
          plan
          log
          w
        ≡ answer_select api view driver resolve show_f64 scaled parse_statements parse_f64 backend
            plan log w
  unfolding answer_select
  answer_select-guarded plan log w configured =
      elim (Result-cases (catalog_for_collection backend.catalog plan.collection)) [
        | inr (e, missing) ↦ rw (answer_select, missing) refl
        | inl (c, found) ↦
            rw (answer_select, found)
              (ap (λ r. read_answer api view plan c r log)
                (execute_select-guarded api driver backend.profiles plan w configured))
      ]

  resolved_answer-guarded :
      (plan : StatementPlan) (schema : SchemaProfile) (log : AuditLog)
      (r : Result ProxyError ResolvedWrite × AuditLog) (w : World)
      → IsConfigured backend.profiles (collection_from_plan plan)
      → GateIsSound plan schema log r
      → resolved_answer api view
          (guarded api driver backend.profiles)
          resolve
          show_f64
          scaled
          parse_statements
          parse_f64
          backend
          schema
          r
          w
        ≡ resolved_answer api view driver resolve show_f64 scaled parse_statements parse_f64 backend
            schema r w
  unfolding resolved_answer GateIsSound
  resolved_answer-guarded plan schema log (err e, log') w configured sound = refl
  resolved_answer-guarded plan schema log (ok resolved, log') w configured (_, (same, _), _) =
      ap (λ r. written_answer schema resolved r log')
        (execute_write-guarded api driver backend.profiles resolved.plan w (rw same configured))

  answer_write-guarded :
      (plan : StatementPlan) (log : AuditLog) (w : World)
      → IsConfigured backend.profiles (collection_from_plan plan)
      → answer_write api view
          (guarded api driver backend.profiles)
          resolve
          show_f64
          scaled
          parse_statements
          parse_f64
          backend
          plan
          log
          w
        ≡ answer_write api view driver resolve show_f64 scaled parse_statements parse_f64 backend
            plan log w
  unfolding answer_write
  answer_write-guarded plan log w configured =
      elim (Result-cases (schema_for_plan_from_profiles plan backend.profiles)) [
        | inr (e, missing) ↦ rw (answer_write, missing) refl
        | inl (schema, found) ↦
            rw (answer_write, found)
              (resolved_answer-guarded plan schema log _ w configured (
                resolve_write_plan-GateIsSound resolve show_f64 scaled plan schema
                  backend.minimum_confidence log))
      ]

  execute_plan-guarded :
      (plan : StatementPlan) (log : AuditLog) (w : World)
      → IsConfigured backend.profiles (collection_from_plan plan)
      → execute_plan api view
          (guarded api driver backend.profiles)
          resolve
          show_f64
          scaled
          parse_statements
          parse_f64
          backend
          plan
          log
          w
        ≡ execute_plan api view driver resolve show_f64 scaled parse_statements parse_f64 backend
            plan log w
  unfolding execute_plan collection_from_plan
  execute_plan-guarded (select plan) log w configured = answer_select-guarded plan log w configured
  execute_plan-guarded (insert plan) log w configured =
      answer_write-guarded (insert plan) log w configured
  execute_plan-guarded (update plan) log w configured =
      answer_write-guarded (update plan) log w configured
  execute_plan-guarded (delete plan) log w configured =
      answer_write-guarded (delete plan) log w configured

  -- What is bound is on a configured collection.
  bound_plan-IsConfigured :
      (query : String) (parameters : List SqlValue) (plan : StatementPlan)
      → bound_plan api view driver resolve show_f64 scaled parse_statements parse_f64 backend query
          parameters
        ≡ ok plan
      → IsConfigured backend.profiles (collection_from_plan plan)
  unfolding bound_plan
  bound_plan-IsConfigured query parameters plan h =
      let (parsed, from, h1) =
        >>=-eq-ok (parse_sql_for_profiles parse_statements parse_f64 query backend.profiles) _ h in
      let (schema, _, h2) =
        >>=-eq-ok (schema_for_plan_from_profiles parsed backend.profiles) _ h1 in
      let (routed, found, lowered) =
        parse_sql_for_profiles-IsRouted parse_statements parse_f64 query backend.profiles parsed
          from in
      let (bound, _) = bound_parts parsed plan parameters schema h2 in
      let (same, _, _) =
        bind_plan-keeps routed parameters parsed plan bound lowered.known lowered.shaped in
      rw same (routed, found)

  run_plan-guarded :
      (query : String) (parameters : List SqlValue) (r : Result ProxyError StatementPlan)
      (log : AuditLog) (w : World)
      → bound_plan api view driver resolve show_f64 scaled parse_statements parse_f64 backend query
          parameters
        ≡ r
      → run_plan api view
          (guarded api driver backend.profiles)
          resolve
          show_f64
          scaled
          parse_statements
          parse_f64
          backend
          r
          log
          w
        ≡ run_plan api view driver resolve show_f64 scaled parse_statements parse_f64 backend r log
            w
  run_plan-guarded query parameters (ok plan) log w h =
      execute_plan-guarded plan log w (bound_plan-IsConfigured query parameters plan h)
  run_plan-guarded query parameters (err e) log w h = refl

  -- A statement reads and writes configured collections alone: with a driver that refuses every call
  -- on another collection, the proxy gives the same result, the same audit log and the same world.
  pub execute_bound-guarded :
      (query : String) (parameters : List SqlValue) (log : AuditLog) (w : World)
      → execute_bound api view
          (guarded api driver backend.profiles)
          resolve
          show_f64
          scaled
          parse_statements
          parse_f64
          backend
          query
          parameters
          log
          w
        ≡ execute_bound api view driver resolve show_f64 scaled parse_statements parse_f64 backend
            query parameters log w
  unfolding execute_bound bound_plan
  execute_bound-guarded query parameters log w =
      elim (Option-cases (catalog_or_session_query backend.database_name backend.catalog query)) [
        | inr (answer, given) ↦ rw (execute_bound, given) refl
        | inl none_given ↦
            rw (execute_bound, none_given)
              (run_plan-guarded query parameters
                (bound_plan api view driver resolve show_f64 scaled parse_statements parse_f64
                  backend query parameters)
                log w refl)
      ]
