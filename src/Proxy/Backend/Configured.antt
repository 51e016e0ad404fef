-- ===== src/Proxy/Backend/Configured.antt =====
-- A backend that was made from its profiles has what every routed statement needs.
use mongres.Prelude.{
  ℕ, String, List, [], ◌∷◌, Option, some, ◌≡◌, refl, sym, arith, inl, inr, Bool-cases, Option-cases,
}
use mongres.F64.{F64}
use mongres.Bson.{BsonApi}
use mongres.BTree.{get}
use mongres.Order.{◌=ₖ◌}
use mongres.Order.Text.{text_ord}
use mongres.Common.{Result, ok, ProxyError}
use mongres.Common.Results.{>>=-eq-ok, ok_injective}
use mongres.Schema.{SchemaProfile}
use mongres.Catalog.{CollectionCatalog}
use mongres.Catalog.Database.{
  DatabaseCatalog, table, project_public_collection, project_public_collections,
}
use mongres.Plan.{StatementPlan, select, insert, update, delete, collection_from_plan}
use mongres.Policy.{ResolverRequest, ResolverResponse}
use mongres.Executor.Run.{Driver}
use mongres.Sql.Ast.{Statement}
use mongres.Sql.Lowering.Router.{parse_sql_for_profiles}
use mongres.Sql.Lowering.Routed.{parse_sql_for_profiles-IsRouted}
use mongres.Proxy.Wire.{WireField, BsonCase, fields}
use mongres.Proxy.Session.{catalog_or_session_query}
use mongres.Proxy.Backend.{
  Backend, new_backend, catalog_for_collection, plan_fields, select_fields, describe,
}

-- Every profile has its catalog.
project_public_collections-get :
    (profiles : List (String × SchemaProfile)) (catalog : DatabaseCatalog) (c : String)
    (schema : SchemaProfile)
    → project_public_collections profiles ≡ ok catalog
    → get c profiles ≡ some schema
    → (t : CollectionCatalog) × (table catalog c ≡ some t)
unfolding project_public_collections get
project_public_collections-get [] catalog c schema h found = absurd (ground arith)
project_public_collections-get ((name, profile) ∷ profiles) catalog c schema h found =
    let (t, projected, h1) = >>=-eq-ok (project_public_collection name profile) _ h in
    let (rest, there, h2) = >>=-eq-ok (project_public_collections profiles) _ h1 in
    let same : (name, t) ∷ rest ≡ catalog = ok_injective h2 in
    elim (Bool-cases (c =ₖ name)) [
      | inl here ↦ (t, rw (← same, get, here) refl)
      | inr other ↦
          let (t', found') =
            project_public_collections-get profiles rest c schema there
              (rw (get, other) at found) in
          (t', rw (← same, get, other) found')
    ]

module _ (api : BsonApi) (view : api.Bson → BsonCase) (driver : Driver api)
    (resolve : ResolverRequest → Result ProxyError ResolverResponse) (show_f64 : F64 → String)
    (scaled : F64 → Option ℕ) (parse_statements : String → Result String (List Statement))
    (parse_f64 : String → Option F64) where
  plan_fields_total :
      (catalog : DatabaseCatalog) (plan : StatementPlan) (t : CollectionCatalog)
      → table catalog (collection_from_plan plan) ≡ some t
      → (fs : List WireField) × (plan_fields catalog plan ≡ ok fs)
  unfolding catalog_for_collection collection_from_plan
  plan_fields_total catalog (select plan) t found = (select_fields plan t, rw found refl)
  plan_fields_total catalog (insert plan) t found = ([], refl)
  plan_fields_total catalog (update plan) t found = ([], refl)
  plan_fields_total catalog (delete plan) t found = ([], refl)

  describe_found :
      (backend : Backend) (query : String) (plan : StatementPlan) (t : CollectionCatalog)
      → parse_sql_for_profiles parse_statements parse_f64 query backend.profiles ≡ ok plan
      → table backend.catalog (collection_from_plan plan) ≡ some t
      → (fs : List WireField) × (describe api view driver resolve show_f64 scaled parse_statements
            parse_f64 backend query
          ≡ ok fs)
  unfolding describe
  describe_found backend query plan t parsed found =
      let (fs, described) = plan_fields_total backend.catalog plan t found in
      elim (Option-cases (catalog_or_session_query backend.database_name backend.catalog query)) [
        | inl none_of ↦ (fs, rw (describe, none_of, parsed) described)
        | inr (result, answered) ↦ (fields result, rw (describe, answered) refl)
      ]

  -- A backend that `ProxyBackend::new` makes describes every statement that the router accepts.
  pub describe_total :
      (database_name query : String) (profiles : List (String × SchemaProfile))
      (minimum_confidence : F64) (backend : Backend) (plan : StatementPlan)
      → new_backend database_name profiles minimum_confidence ≡ ok backend
      → parse_sql_for_profiles parse_statements parse_f64 query profiles ≡ ok plan
      → (fs : List WireField) × (describe api view driver resolve show_f64 scaled parse_statements
            parse_f64 backend query
          ≡ ok fs)
  unfolding new_backend
  describe_total database_name query profiles minimum_confidence backend plan made parsed =
      let (catalog, projected, made') = >>=-eq-ok (project_public_collections profiles) _ made in
      let same : backend ≡ record {
        database_name = database_name;
        profiles = profiles;
        catalog = catalog;
        minimum_confidence = minimum_confidence;
      } =
        sym (ok_injective made') in
      let (schema, found, lowered) =
        parse_sql_for_profiles-IsRouted parse_statements parse_f64 query profiles plan parsed in
      let (t, has_table) =
        project_public_collections-get profiles catalog (collection_from_plan plan) schema projected
          found in
      rw (same) (
        describe_found
          (record {
            database_name = database_name;
            profiles = profiles;
            catalog = catalog;
            minimum_confidence = minimum_confidence;
          })
          query plan t parsed has_table)
