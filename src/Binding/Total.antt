-- ===== src/Binding/Total.antt =====
-- Once the number of parameters is right, no value is missing: only a type can be wrong.
use mongres.Prelude.{
  ◌-◌, false, List, [], ◌∷◌, Option, none, some, length, get_elem?_total, any, ◌≡◌, refl, arith,
  All, ==_iff,
}
use mongres.Common.{Result, ok, ◌>>=◌, ProxyError}
use mongres.Common.Results.{traverse, traverse_total, transpose}
use mongres.Schema.{SchemaProfile}
use mongres.Plan.{
  SqlValue, placeholder, Predicate, Predicates, compare, in_list, is_null, and, or, nil, cons,
  AssignmentPlan, StatementPlan, select, insert, update, delete,
}
use mongres.Binding.{
  is_placeholder, bind_value, bind_predicate, bind_predicates, bind_row, bind_assignment, bind_plan,
  bind_parameters, maximum_placeholder_index, validate_bound_plan,
}
use mongres.Binding.Indices.{
  Fits, PredicateFits, PredicatesFit, PlanFits, maximum_placeholder_index-PlanFits,
}

module _ (parameters : List SqlValue) where
  abbrev Succeeds {ℓ} : {A : Type ℓ} → Result ProxyError A → Type ℓ
  Succeeds {A} r = (a : A) × (r ≡ ok a)

  bind_value_total :
      (v : SqlValue) → Fits (length parameters) v → Succeeds (bind_value v parameters)
  unfolding bind_value
  bind_value_total (placeholder p) (i, here, pos, le) =
      let (w, found) = get_elem?_total parameters (i - 1) (omega arith) in (w, rw (here, found))
  bind_value_total v h = (v, ground arith)

  bind_row_total :
      (vs : List SqlValue)
      → All (Fits (length parameters)) vs
      → Succeeds (traverse (λ v. bind_value v parameters) vs)
  bind_row_total vs h = traverse_total (λ v. bind_value v parameters) vs (each vs h)
    where
      each :
          (vs : List SqlValue)
          → All (Fits (length parameters)) vs
          → All (λ v. Succeeds (bind_value v parameters)) vs
      each = elim [ [] ↦ λ h. tt | v ∷ (vs → ih) ↦ λ h. (bind_value_total v h.0, ih h.1) ]

  mutual
    unfolding bind_predicate

    bind_predicate_total :
        (p : Predicate)
        → PredicateFits (length parameters) p
        → Succeeds (bind_predicate p parameters)
    bind_predicate_total (compare path op v) h =
        let (w, here) = bind_value_total v h in (compare path op w, rw here)
    bind_predicate_total (in_list path vs negated) h =
        let (ws, here) = bind_row_total vs h in (in_list path ws negated, rw here)
    bind_predicate_total (is_null path negated) h = (is_null path negated, refl)
    bind_predicate_total (and ps) h =
        let (qs, here) = bind_predicates_total ps h in (and qs, rw here)
    bind_predicate_total (or ps) h = let (qs, here) = bind_predicates_total ps h in (or qs, rw here)

    bind_predicates_total :
        (ps : Predicates)
        → PredicatesFit (length parameters) ps
        → Succeeds (bind_predicates ps parameters)
    bind_predicates_total nil h = (nil, refl)
    bind_predicates_total (cons p ps) (h, hs) =
        let (q, here) = bind_predicate_total p h in
        let (qs, there) = bind_predicates_total ps hs in (cons q qs, rw (here, there))

  rows_total :
      (rows : List (List SqlValue))
      → All (All (Fits (length parameters))) rows
      → Succeeds (traverse (bind_row parameters) rows)
  rows_total rows h = traverse_total (bind_row parameters) rows (each rows h)
    where
      each :
          (rows : List (List SqlValue))
          → All (All (Fits (length parameters))) rows
          → All (λ row. Succeeds (bind_row parameters row)) rows
      each = elim [ [] ↦ λ h. tt | row ∷ (rows → ih) ↦ λ h. (bind_row_total row h.0, ih h.1) ]

  assignments_total :
      (assignments : List AssignmentPlan)
      → All (λ a. Fits (length parameters) a.value) assignments
      → Succeeds (traverse (bind_assignment parameters) assignments)
  assignments_total assignments h =
      traverse_total (bind_assignment parameters) assignments (each assignments h)
    where
      one :
          (a : AssignmentPlan)
          → Fits (length parameters) a.value
          → Succeeds (bind_assignment parameters a)
      one a h =
          let (w, here) = bind_value_total a.value h in
          (record { path = a.path; value = w }, rw here)

      each :
          (assignments : List AssignmentPlan)
          → All (λ a. Fits (length parameters) a.value) assignments
          → All (λ a. Succeeds (bind_assignment parameters a)) assignments
      each = elim [ [] ↦ λ h. tt | a ∷ (rest → ih) ↦ λ h. (one a h.0, ih h.1) ]

  filter_total :
      (o : Option Predicate)
      → (elim o as (λ _. Type 0) [ none ↦ Unit | some p ↦ PredicateFits (length parameters) p ])
      → Succeeds (transpose (λ p. bind_predicate p parameters) o)
  unfolding transpose
  filter_total none h = (none, refl)
  filter_total (some p) h = let (q, here) = bind_predicate_total p h in (some q, rw here)

  bind_plan_total :
      (plan : StatementPlan)
      → PlanFits (length parameters) plan
      → Succeeds (bind_plan plan parameters)
  unfolding bind_plan
  bind_plan_total (select plan) h =
      let (f, here) = filter_total plan.filter h in (select (record plan { filter = f }), rw here)
  bind_plan_total (insert plan) h =
      let (rows, here) = rows_total plan.rows h in (insert (record plan { rows = rows }), rw here)
  bind_plan_total (update plan) (h, k) =
      let (bs, here) = assignments_total plan.assignments h in
      let (f, there) = bind_predicate_total plan.filter k in
      (update (record plan { assignments = bs; filter = f }), rw (here, there))
  bind_plan_total (delete plan) h =
      let (f, here) = bind_predicate_total plan.filter h in
      (delete (record plan { filter = f }), rw here)

-- With as many parameters as the largest placeholder index of the plan, none of them a placeholder,
-- substitution succeeds, and `bind_parameters` returns its result if the schema validation accepts
-- it and the error of the validation otherwise.
pub bind_parameters_total :
    (plan : StatementPlan) (parameters : List SqlValue) (schema : SchemaProfile)
    → any is_placeholder parameters ≡ false
    → maximum_placeholder_index plan ≡ ok (length parameters)
    → (bound : StatementPlan) × (bind_plan plan parameters ≡ ok bound)
      × (bind_parameters plan parameters schema
          ≡ (validate_bound_plan bound schema >>= λ _. ok bound))
unfolding bind_parameters
bind_parameters_total plan parameters schema none_left required =
    let (bound, here) =
      bind_plan_total parameters plan (maximum_placeholder_index-PlanFits _ plan required) in
    (
      bound,
      here,
      rw (none_left, required, (==_iff (length parameters) (length parameters)).1 refl, here),
    )
