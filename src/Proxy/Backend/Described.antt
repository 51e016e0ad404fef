-- ===== src/Proxy/Backend/Described.antt =====
-- The description of a statement and its result agree.
use mongres.Prelude.{
  ℕ, suc, String, Bool, true, false, List, [], ◌∷◌, Option, none, some, map, length, length-map,
  ◌≡◌, ◌⊎◌, refl, sym, ap, ◌∙◌, arith, All, Option-cases, inl, inr,
}
use mongres.F64.{F64}
use mongres.Bson.{BsonApi}
use mongres.Common.{Result, ok, err, ProxyError}
use mongres.Common.Results.{>>=-eq-ok, ok_injective, Result-cases, transpose, traverse}
use mongres.Plan.{
  SqlValue, ProjectedField, Projection, SelectPlan, StatementPlan, select, insert, update, delete,
}
use mongres.Binding.{bind_plan, bind_predicate, bind_row, bind_assignment}
use mongres.Policy.{ResolverRequest, ResolverResponse}
use mongres.Executor.Run.{Driver, execute_select, execute_write}
use mongres.Catalog.{CollectionCatalog}
use mongres.Catalog.Database.{DatabaseCatalog, tables, columns}
use mongres.Schema.{SchemaProfile}
use mongres.Executor.Outcome.{WriteOutcome}
use mongres.Sql.Ast.{Statement}
use mongres.Sql.Lowering.Router.{parse_sql_for_profiles}
use mongres.Sql.Lowering.Bound.{bound_parts}
use mongres.Proxy.Ambiguity.{AuditLog, ResolvedWrite}
use mongres.Proxy.Wire.{WireField, WireValue, ExecutionResult, fields, BsonCase, command_result}
use mongres.Proxy.Session.{
  information_schema_tables, information_schema_columns, pg_tables, psql_relation_listing,
  catalog_or_session_query, answer_if,
}
use mongres.Proxy.Statement.{schema_for_plan_from_profiles}
use mongres.Proxy.Backend.{
  Backend, single_path, selected_paths, select_fields, catalog_for_collection, plan_fields, row_of,
  query_result, read_answer, answer_select, command_answer, written_answer, resolved_answer,
  answer_write, execute_plan, run_plan, session_result, bound_plan, execute_bound, describe,
}

-- Every row has a value for each field.
abbrev IsRectangularFor : List WireField → List (List WireValue) → Type 0
IsRectangularFor fs rows = All (λ row. length row ≡ length fs) rows

unfoldable pub IsRectangular : ExecutionResult → Type 0
IsRectangular (ExecutionResult.query fs rows) = IsRectangularFor fs rows
IsRectangular (ExecutionResult.command c) = Unit {0}

All-map :
    {A B : Type 0} (f : A → B) (P : B → Type 0) (xs : List A)
    → ((x : A) → P (f x))
    → All P (map f xs)
All-map f P [] h = tt
All-map f P (x ∷ xs) h = (h x, All-map f P xs h)

some_injective : {A : Type 0} {a b : A} → some a ≡ some b → a ≡ b
some_injective e = cc

abbrev Answers : Option ExecutionResult → Type 0
Answers o = (result : ExecutionResult) → o ≡ some result → IsRectangular result

no_answer : Answers none
no_answer result h = cc

or_answer :
    (test : Bool) (answer : ExecutionResult) (rest : Option ExecutionResult)
    → IsRectangular answer
    → Answers rest
    → Answers (answer_if test answer rest)
unfolding answer_if
or_answer true answer rest here there result h =
    let same : answer ≡ result = some_injective h in rw (← same) here
or_answer false answer rest here there result h = there result h

one_value :
    (f : WireField) (v : WireValue) → IsRectangular (ExecutionResult.query (f ∷ []) ((v ∷ []) ∷ []))
unfolding IsRectangular
one_value f v = (refl, tt)

module _ (catalog : DatabaseCatalog) where
  tables-IsRectangular : IsRectangular (information_schema_tables catalog)
  unfolding information_schema_tables IsRectangular
  tables-IsRectangular = All-map _ _ (tables catalog) (λ t. refl)

  columns-IsRectangular : IsRectangular (information_schema_columns catalog)
  unfolding information_schema_columns IsRectangular
  columns-IsRectangular = All-map _ _ (columns catalog) (λ c. refl)

  pg_tables-IsRectangular : IsRectangular (pg_tables catalog)
  unfolding pg_tables IsRectangular
  pg_tables-IsRectangular = All-map _ _ (tables catalog) (λ t. refl)

  relations-IsRectangular : IsRectangular (psql_relation_listing catalog)
  unfolding psql_relation_listing IsRectangular
  relations-IsRectangular = All-map _ _ (tables catalog) (λ t. refl)

  catalog_or_session_query-IsRectangular :
      (name : String) (query : String) → Answers (catalog_or_session_query name catalog query)
  unfolding catalog_or_session_query
  catalog_or_session_query-IsRectangular name query = or_answer _ _ _ (one_value _ _) (
      or_answer _ _ _ (one_value _ _) (
        or_answer _ _ _ (one_value _ _) (
          or_answer _ _ _ (one_value _ _) (
            or_answer _ _ _ (one_value _ _) (
              or_answer _ _ _ tables-IsRectangular (
                or_answer _ _ _ columns-IsRectangular (
                  or_answer _ _ _ pg_tables-IsRectangular
                    (or_answer _ _ _ relations-IsRectangular no_answer))))))))

selected-length :
    (plan : SelectPlan) (c : CollectionCatalog)
    → length (selected_paths plan c) ≡ length (select_fields plan c)
unfolding selected_paths select_fields
selected-length plan c = elim (projection_cases plan.projection) [
  | inl all ↦
      rw all (length-map (single_path c.columns) _ ∙ sym (length-map (single_path c.columns) _))
  | inr (fs, given) ↦ rw given (length-map fs _ ∙ sym (length-map fs _))
]
  where
    projection_cases :
        (p : Projection)
        → (p ≡ Projection.all) ⊎ ((fs : List ProjectedField) × (p ≡ Projection.fields fs))
    projection_cases Projection.all = inl refl
    projection_cases (Projection.fields fs) = inr (fs, refl)

bind_plan-fields :
    (catalog : DatabaseCatalog) (plan bound : StatementPlan) (parameters : List SqlValue)
    → bind_plan plan parameters ≡ ok bound
    → plan_fields catalog bound ≡ plan_fields catalog plan
unfolding bind_plan select_fields
bind_plan-fields catalog (select plan) bound parameters h =
    let (filter, _, h1) =
      >>=-eq-ok (transpose (λ p. bind_predicate p parameters) plan.filter) _ h in
    let same : select (record plan { filter = filter }) ≡ bound = ok_injective h1 in
    rw (← same) refl
bind_plan-fields catalog (insert plan) bound parameters h =
    let (rows, _, h1) = >>=-eq-ok (traverse (bind_row parameters) plan.rows) _ h in
    let same : insert (record plan { rows = rows }) ≡ bound = ok_injective h1 in rw (← same) refl
bind_plan-fields catalog (update plan) bound parameters h =
    let (assignments, _, h1) =
      >>=-eq-ok (traverse (bind_assignment parameters) plan.assignments) _ h in
    let (filter, _, h2) = >>=-eq-ok (bind_predicate plan.filter parameters) _ h1 in
    let same : update (record plan { assignments = assignments; filter = filter }) ≡ bound =
      ok_injective h2 in
    rw (← same) refl
bind_plan-fields catalog (delete plan) bound parameters h =
    let (filter, _, h1) = >>=-eq-ok (bind_predicate plan.filter parameters) _ h in
    let same : delete (record plan { filter = filter }) ≡ bound = ok_injective h1 in
    rw (← same) refl

-- A result that succeeds has these fields, and rows that fit them.
abbrev Fits : List WireField → Result ProxyError ExecutionResult → Type 0
Fits fs r = (result : ExecutionResult) → r ≡ ok result → (fields result ≡ fs) × IsRectangular result

Fits-err : (fs : List WireField) (e : ProxyError) → Fits fs (err e)
Fits-err fs e result h = cc

module _ (api : BsonApi) (view : api.Bson → BsonCase) (driver : Driver api)
    (resolve : ResolverRequest → Result ProxyError ResolverResponse) (show_f64 : F64 → String)
    (scaled : F64 → Option ℕ) (parse_statements : String → Result String (List Statement))
    (parse_f64 : String → Option F64) (backend : Backend) where
  open api use {Document}
  open driver use {World}

  abbrev row : List (List String) → List WireField → Document → List WireValue
  row = row_of api view

  row-length :
      (paths : List (List String)) (fs : List WireField) (d : Document)
      → length paths ≡ length fs
      → length (row paths fs d) ≡ length fs
  row-length [] [] d same = refl
  row-length [] (f ∷ fs) d same = absurd (omega arith)
  row-length (path ∷ paths) [] d same = absurd (omega arith)
  row-length (path ∷ paths) (f ∷ fs) d same = ap suc (row-length paths fs d (omega arith))

  answer_select-Fits :
      (plan : SelectPlan) (log : AuditLog) (w : World) (fs : List WireField)
      → plan_fields backend.catalog (select plan) ≡ ok fs
      → Fits fs
          (answer_select api view driver resolve show_f64 scaled parse_statements parse_f64 backend
            plan log w).0
  unfolding answer_select query_result fields IsRectangular
  answer_select-Fits plan log w fs planned =
      let (c, found, h) =
        >>=-eq-ok (catalog_for_collection backend.catalog plan.collection) _ planned in
      let same : select_fields plan c ≡ fs = ok_injective h in
      rw (answer_select, found) (read c same (execute_select api driver plan w))
    where
      read :
          (c : CollectionCatalog)
          → select_fields plan c ≡ fs
          → (r : Result ProxyError (List Document) × World)
          → Fits fs (read_answer api view plan c r log).0
      read c same (err e, w') = Fits-err fs e
      read c same (ok documents, w') = λ result h.
          let shown : ExecutionResult.query (select_fields plan c)
                (map (row (selected_paths plan c) (select_fields plan c)) documents)
              ≡ result =
            ok_injective h in
          rw (← shown) (
            same,
            All-map _ _ documents (λ d.
                row-length (selected_paths plan c) (select_fields plan c) d
                  (selected-length plan c)),
          )

  command_answer-Fits :
      (plan : StatementPlan) (outcome : WriteOutcome) → Fits [] (command_answer plan outcome)
  unfolding fields IsRectangular
  command_answer-Fits plan outcome result h = elim (Result-cases (command_result plan outcome)) [
    | inl (c, done) ↦
        let same : ExecutionResult.command c ≡ result =
          ok_injective (rw (command_answer, done) at h) in
        rw (← same) (refl, tt)
    | inr (e, panic) ↦ absurd (ground (arith, rw (command_answer, panic) at h))
  ]

  written_answer-Fits :
      (schema : SchemaProfile) (resolved : ResolvedWrite)
      (r : Result ProxyError WriteOutcome × World) (log : AuditLog)
      → Fits [] (written_answer schema resolved r log).0
  unfolding written_answer
  written_answer-Fits schema resolved (ok outcome, w) log =
      command_answer-Fits resolved.plan outcome
  written_answer-Fits schema resolved (err e, w) log = Fits-err [] e

  resolved_answer-Fits :
      (schema : SchemaProfile) (r : Result ProxyError ResolvedWrite × AuditLog) (w : World)
      → Fits []
          (resolved_answer api view driver resolve show_f64 scaled parse_statements parse_f64
            backend schema r w).0
  unfolding resolved_answer
  resolved_answer-Fits schema (ok resolved, log) w =
      written_answer-Fits schema resolved (execute_write api driver resolved.plan w) log
  resolved_answer-Fits schema (err e, log) w = Fits-err [] e

  answer_write-Fits :
      (plan : StatementPlan) (log : AuditLog) (w : World)
      → Fits []
          (answer_write api view driver resolve show_f64 scaled parse_statements parse_f64 backend
            plan log w).0
  unfolding answer_write
  answer_write-Fits plan log w =
      elim (Result-cases (schema_for_plan_from_profiles plan backend.profiles)) [
        | inl (schema, found) ↦ rw (answer_write, found) (resolved_answer-Fits schema _ w)
        | inr (e, missing) ↦ rw (answer_write, missing) (Fits-err [] e)
      ]

  execute_plan-Fits :
      (plan : StatementPlan) (log : AuditLog) (w : World) (fs : List WireField)
      → plan_fields backend.catalog plan ≡ ok fs
      → Fits fs
          (execute_plan api view driver resolve show_f64 scaled parse_statements parse_f64 backend
            plan log w).0
  unfolding execute_plan
  execute_plan-Fits (select plan) log w fs planned = answer_select-Fits plan log w fs planned
  execute_plan-Fits (insert plan) log w fs planned =
      let none_left : [] ≡ fs = ok_injective planned in
      rw (← none_left) (answer_write-Fits (insert plan) log w)
  execute_plan-Fits (update plan) log w fs planned =
      let none_left : [] ≡ fs = ok_injective planned in
      rw (← none_left) (answer_write-Fits (update plan) log w)
  execute_plan-Fits (delete plan) log w fs planned =
      let none_left : [] ≡ fs = ok_injective planned in
      rw (← none_left) (answer_write-Fits (delete plan) log w)

  -- A bound plan is described as the statement's plan.
  bound_plan-fields :
      (query : String) (parameters : List SqlValue) (plan bound : StatementPlan)
      → parse_sql_for_profiles parse_statements parse_f64 query backend.profiles ≡ ok plan
      → bound_plan api view driver resolve show_f64 scaled parse_statements parse_f64 backend query
          parameters
        ≡ ok bound
      → plan_fields backend.catalog bound ≡ plan_fields backend.catalog plan
  unfolding bound_plan
  bound_plan-fields query parameters plan bound parsed h =
      let (schema, _, h1) =
        >>=-eq-ok (schema_for_plan_from_profiles plan backend.profiles) _
          (rw (bound_plan, parsed) at h) in
      bind_plan-fields backend.catalog plan bound parameters
        (bound_parts plan bound parameters schema h1).0

  run_plan-Fits :
      (query : String) (parameters : List SqlValue) (plan : StatementPlan)
      (r : Result ProxyError StatementPlan) (log : AuditLog) (w : World) (fs : List WireField)
      → bound_plan api view driver resolve show_f64 scaled parse_statements parse_f64 backend query
          parameters
        ≡ r
      → parse_sql_for_profiles parse_statements parse_f64 query backend.profiles ≡ ok plan
      → plan_fields backend.catalog plan ≡ ok fs
      → Fits fs
          (run_plan api view driver resolve show_f64 scaled parse_statements parse_f64 backend r log
            w).0
  run_plan-Fits query parameters plan (ok bound) log w fs is_bound parsed planned =
      execute_plan-Fits bound log w fs
        (bound_plan-fields query parameters plan bound parsed is_bound ∙ planned)
  run_plan-Fits query parameters plan (err e) log w fs is_bound parsed planned = Fits-err fs e

  session_lem :
      (answer : ExecutionResult) (parameters : List SqlValue) (fs : List WireField)
      (result : ExecutionResult)
      → fields answer ≡ fs
      → IsRectangular answer
      → session_result api view driver resolve show_f64 scaled parse_statements parse_f64 backend
          answer parameters
        ≡ ok result
      → (fields result ≡ fs) × IsRectangular result
  session_lem answer [] fs result shown rectangle h =
      let same : answer ≡ result = ok_injective h in rw (← same) (shown, rectangle)
  session_lem answer (p ∷ parameters) fs result shown rectangle h = cc

  -- The result of a prepared statement has exactly the fields that its description promised, and
  -- every row has one value for each field, whatever the parameters, the state and the database are.
  pub execute_bound-describe :
      (query : String) (parameters : List SqlValue) (log : AuditLog) (w : World)
      (fs : List WireField) (result : ExecutionResult)
      → describe api view driver resolve show_f64 scaled parse_statements parse_f64 backend query
        ≡ ok fs
      → (execute_bound api view driver resolve show_f64 scaled parse_statements parse_f64 backend
          query parameters log w).0
        ≡ ok result
      → (fields result ≡ fs) × IsRectangular result
  unfolding describe execute_bound
  execute_bound-describe query parameters log w fs result described h =
      elim (Option-cases (catalog_or_session_query backend.database_name backend.catalog query)) [
        | inl none_left ↦
            let (plan, parsed, planned) =
              >>=-eq-ok (parse_sql_for_profiles parse_statements parse_f64 query backend.profiles) _
                (rw (describe, none_left) at described) in
            run_plan-Fits query parameters plan
              (bound_plan api view driver resolve show_f64 scaled parse_statements parse_f64 backend
                query parameters)
              log w fs refl parsed planned result (rw (execute_bound, none_left) at h)
        | inr (answer, given) ↦
            let shown : fields answer ≡ fs = ok_injective (rw (describe, given) at described) in
            session_lem answer parameters fs result shown
              (catalog_or_session_query-IsRectangular backend.catalog backend.database_name query
                answer given)
              (rw (execute_bound, given) at h)
      ]
