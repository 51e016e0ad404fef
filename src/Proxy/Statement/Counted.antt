-- ===== src/Proxy/Statement/Counted.antt =====
-- A prepared statement declares as many parameters as its binding needs.
use mongres.Prelude.{
  ℕ, suc, String, false, List, [], ◌∷◌, Option, ◌≡◌, refl, sym, ap, ◌∙◌, arith, length, ◌==◌,
  ==_iff, Bool-cases, inl, inr,
}
use mongres.F64.{F64}
use mongres.Common.{Result, ok}
use mongres.Common.Results.{>>=-eq-ok, ok_injective}
use mongres.Schema.{SchemaProfile}
use mongres.Plan.{StatementPlan}
use mongres.Binding.{maximum_placeholder_index}
use mongres.Sql.Ast.{Statement}
use mongres.Sql.Lowering.Router.{parse_sql_for_profiles}
use mongres.Sql.Lowering.Routed.{parse_sql_for_profiles-IsRouted}
use mongres.Proxy.PgType.{PgType}
use mongres.Proxy.Prepare.{
  infer_parameter_types, reconcile_one, reconcile_from, reconcile_parameter_types,
}
use mongres.Proxy.Prepare.Counts.{infer_parameter_types-length}
use mongres.Proxy.Session.{is_catalog_or_session_query}
use mongres.Proxy.Statement.{PreparedStatement, schema_for_plan_from_profiles, prepare_statement}

module _ (type_name : PgType → String) where
  reconcile_from-length :
      (requested inferred out : List PgType) (index : ℕ)
      → length requested ≡ length inferred
      → reconcile_from type_name index requested inferred ≡ ok out
      → length out ≡ length inferred
  unfolding reconcile_from
  reconcile_from-length [] inferred out index fits h =
      let same : [] ≡ out = ok_injective h in rw (← same) fits
  reconcile_from-length (r ∷ requested) [] out index fits h = absurd (omega arith)
  reconcile_from-length (r ∷ requested) (i ∷ inferred) out index fits h =
      let (t, _, h1) = >>=-eq-ok (reconcile_one type_name index r i) _ h in
      let (types, rest, h2) =
        >>=-eq-ok (reconcile_from type_name (suc index) requested inferred) _ h1 in
      let same : t ∷ types ≡ out = ok_injective h2 in
      rw (← same)
        (ap suc (reconcile_from-length requested inferred types (suc index) (omega arith) rest))

  reconcile_parameter_types-length :
      (requested inferred out : List PgType)
      → reconcile_parameter_types type_name requested inferred ≡ ok out
      → length out ≡ length inferred
  unfolding reconcile_parameter_types
  reconcile_parameter_types-length [] inferred out h =
      let same : inferred ≡ out = ok_injective h in rw (← same) refl
  reconcile_parameter_types-length (r ∷ requested) inferred out h =
      elim (Bool-cases (length (r ∷ requested) == length inferred)) [
        | inr other ↦ absurd (ground (arith, other))
        | inl fits ↦
            reconcile_from-length (r ∷ requested) inferred out 0
              ((==_iff (length (r ∷ requested)) (length inferred)).0 fits) (ground (arith, fits))
      ]

-- A statement that is prepared, and is no catalog or session query, has a plan, and its parameter
-- types, inferred or declared by the client, are as many as the values that binding the plan needs.
pub prepare_statement-length :
    (parse_statements : String → Result String (List Statement)) (parse_f64 : String → Option F64)
    (type_name : PgType → String) (query : String) (requested : List PgType)
    (profiles : List (String × SchemaProfile)) (prepared : PreparedStatement)
    → is_catalog_or_session_query query ≡ false
    → prepare_statement parse_statements parse_f64 type_name query requested profiles ≡ ok prepared
    → (plan : StatementPlan) × (parse_sql_for_profiles parse_statements parse_f64 query profiles
        ≡ ok plan)
      × (maximum_placeholder_index plan ≡ ok (length prepared.parameter_types))
unfolding prepare_statement
prepare_statement-length parse_statements parse_f64 type_name query requested profiles prepared
      ordinary h =
    let (plan, parsed, h1) =
      >>=-eq-ok (parse_sql_for_profiles parse_statements parse_f64 query profiles) _
        (rw (prepare_statement, ordinary) at h) in
    let (schema, _, h2) = >>=-eq-ok (schema_for_plan_from_profiles plan profiles) _ h1 in
    let (inferred, inference, h3) = >>=-eq-ok (infer_parameter_types schema plan) _ h2 in
    let (types, agreement, h4) =
      >>=-eq-ok (reconcile_parameter_types type_name requested inferred) _ h3 in
    let (_, _, lowered) =
      parse_sql_for_profiles-IsRouted parse_statements parse_f64 query profiles plan parsed in
    let same : types ≡ prepared.parameter_types =
      ap (λ (p : PreparedStatement). p.parameter_types) (ok_injective h4) in
    (
      plan,
      parsed,
      infer_parameter_types-length plan schema inferred lowered.shaped inference
          ∙ ap ok (
              sym (reconcile_parameter_types-length type_name requested inferred types agreement)
              ∙ ap length same),
    )
