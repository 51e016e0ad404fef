-- ===== src/Sql/Lowering/Bound.antt =====
-- Binding keeps what lowering established.
use mongres.Prelude.{
  ℕ, String, List, [], ◌∷◌, Option, none, some, ◌≡◌, ◌≢◌, refl, ap, ◌∙◌, arith, Bool-cases, inl,
  inr, All, length, any,
}
use mongres.Common.{Result, ok, ProxyError}
use mongres.Common.Results.{>>=-eq-ok, ok_injective, traverse, length-traverse, transpose}
use mongres.Schema.{SchemaProfile}
use mongres.Plan
use mongres.Plan.{
  SqlValue, Predicate, Predicates, compare, in_list, is_null, and, or, AssignmentPlan,
  StatementPlan, select, insert, update, delete, collection_from_plan,
}
use mongres.Binding.{
  is_placeholder, bind_value, bind_predicate, bind_predicates, bind_row, bind_assignment, bind_plan,
  validate_bound_plan, bind_parameters,
}
use mongres.Sql.Resolve.Known.{PathIsKnown, PredicateIsKnown, PredicatesAreKnown}
use mongres.Sql.Lowering.Known.{FilterIsKnown, PlanIsKnown, HasShape}
use mongres.Sql.Lowering.Sound.{IsLowered}

module _ (schema : SchemaProfile) (parameters : List SqlValue) where
  mutual
    unfolding bind_predicate

    bind_predicate-IsKnown :
        (p q : Predicate)
        → bind_predicate p parameters ≡ ok q
        → PredicateIsKnown schema p
        → PredicateIsKnown schema q
    bind_predicate-IsKnown (compare path op v) q h known =
        let (w, _, h1) = >>=-eq-ok (bind_value v parameters) _ h in
        let same : compare path op w ≡ q = ok_injective h1 in rw (← same) known
    bind_predicate-IsKnown (in_list path vs negated) q h known =
        let (ws, _, h1) = >>=-eq-ok (traverse (λ v. bind_value v parameters) vs) _ h in
        let same : in_list path ws negated ≡ q = ok_injective h1 in rw (← same) known
    bind_predicate-IsKnown (is_null path negated) q h known =
        let same : is_null path negated ≡ q = ok_injective h in rw (← same) known
    bind_predicate-IsKnown (and ps) q h known =
        let (qs, bound, h1) = >>=-eq-ok (bind_predicates ps parameters) _ h in
        let same : and qs ≡ q = ok_injective h1 in
        rw (← same) (bind_predicates-AreKnown ps qs bound known)
    bind_predicate-IsKnown (or ps) q h known =
        let (qs, bound, h1) = >>=-eq-ok (bind_predicates ps parameters) _ h in
        let same : or qs ≡ q = ok_injective h1 in
        rw (← same) (bind_predicates-AreKnown ps qs bound known)

    bind_predicates-AreKnown :
        (ps qs : Predicates)
        → bind_predicates ps parameters ≡ ok qs
        → PredicatesAreKnown schema ps
        → PredicatesAreKnown schema qs
    bind_predicates-AreKnown Plan.nil qs h known =
        let same : Plan.nil ≡ qs = ok_injective h in rw (← same) tt
    bind_predicates-AreKnown (Plan.cons p ps) qs h (here, known) =
        let (q, first, h1) = >>=-eq-ok (bind_predicate p parameters) _ h in
        let (rest, others, h2) = >>=-eq-ok (bind_predicates ps parameters) _ h1 in
        let same : Plan.cons q rest ≡ qs = ok_injective h2 in
        rw (← same)
          (bind_predicate-IsKnown p q first here, bind_predicates-AreKnown ps rest others known)

  bind_filter-IsKnown :
      (filter bound : Option Predicate)
      → transpose (λ p. bind_predicate p parameters) filter ≡ ok bound
      → FilterIsKnown schema filter
      → FilterIsKnown schema bound
  unfolding transpose
  bind_filter-IsKnown none bound h known =
      let same : none ≡ bound = ok_injective h in rw (← same) tt
  bind_filter-IsKnown (some p) bound h known =
      let (q, here, h1) = >>=-eq-ok (bind_predicate p parameters) _ h in
      let same : some q ≡ bound = ok_injective h1 in
      rw (← same) (bind_predicate-IsKnown p q here known)

  bind_rows-length :
      (n : ℕ) (rows bound : List (List SqlValue))
      → traverse (bind_row parameters) rows ≡ ok bound
      → All (λ row. length row ≡ n) rows
      → All (λ row. length row ≡ n) bound
  unfolding traverse
  bind_rows-length n [] bound h long = let same : [] ≡ bound = ok_injective h in rw (← same) tt
  bind_rows-length n (row ∷ rows) bound h (here, long) =
      let (row', first, h1) = >>=-eq-ok (bind_row parameters row) _ h in
      let (rest, others, h2) = >>=-eq-ok (traverse (bind_row parameters) rows) _ h1 in
      let same : row' ∷ rest ≡ bound = ok_injective h2 in
      rw (← same) (
        length-traverse (λ v. bind_value v parameters) row row' first ∙ here,
        bind_rows-length n rows rest others long,
      )

  bind_assignments-known :
      (assignments bound : List AssignmentPlan)
      → traverse (bind_assignment parameters) assignments ≡ ok bound
      → All (λ a. PathIsKnown schema a.path) assignments
      → All (λ a. PathIsKnown schema a.path) bound
  unfolding traverse
  bind_assignments-known [] bound h known = let same : [] ≡ bound = ok_injective h in rw (← same) tt
  bind_assignments-known (a ∷ rest) bound h (here, known) =
      let (a', first, h1) = >>=-eq-ok (bind_assignment parameters a) _ h in
      let (v, _, kept) = >>=-eq-ok (bind_value a.value parameters) _ first in
      let (rest', others, h2) = >>=-eq-ok (traverse (bind_assignment parameters) rest) _ h1 in
      let path : a.path ≡ a'.path = ap (λ (b : AssignmentPlan). b.path) (ok_injective kept) in
      let same : a' ∷ rest' ≡ bound = ok_injective h2 in
      rw (← same) (rw (← path) here, bind_assignments-known rest rest' others known)

  same_emptiness :
      {A B : Type 0} (f : A → Result ProxyError B) (xs : List A) (ys : List B)
      → traverse f xs ≡ ok ys
      → xs ≢ []
      → ys ≢ []
  unfolding traverse
  same_emptiness f [] ys h filled = absurd (filled refl)
  same_emptiness f (x ∷ xs) ys h filled = ground (arith, length-traverse f (x ∷ xs) ys h)

  -- What a plan keeps when its values are bound.
  pub bind_plan-keeps :
      (plan bound : StatementPlan)
      → bind_plan plan parameters ≡ ok bound
      → PlanIsKnown schema plan
      → HasShape plan
      → (collection_from_plan bound ≡ collection_from_plan plan)
        × PlanIsKnown schema bound
        × HasShape bound
  unfolding bind_plan collection_from_plan
  bind_plan-keeps (select plan) bound h (read, tested) shaped =
      let (filter, here, h1) =
        >>=-eq-ok (transpose (λ p. bind_predicate p parameters) plan.filter) _ h in
      let same : select (record plan { filter = filter }) ≡ bound = ok_injective h1 in
      rw (← same) (refl, (read, bind_filter-IsKnown plan.filter filter here tested), tt)
  bind_plan-keeps (insert plan) bound h known (columns, filled, long) =
      let (rows, here, h1) = >>=-eq-ok (traverse (bind_row parameters) plan.rows) _ h in
      let same : insert (record plan { rows = rows }) ≡ bound = ok_injective h1 in
      rw (← same) (
        refl,
        known,
        (
          columns,
          same_emptiness (bind_row parameters) plan.rows rows here filled,
          bind_rows-length (length plan.columns) plan.rows rows here long,
        ),
      )
  bind_plan-keeps (update plan) bound h (set, tested) shaped =
      let (assignments, here, h1) =
        >>=-eq-ok (traverse (bind_assignment parameters) plan.assignments) _ h in
      let (filter, there, h2) = >>=-eq-ok (bind_predicate plan.filter parameters) _ h1 in
      let same : update (record plan { assignments = assignments; filter = filter }) ≡ bound =
        ok_injective h2 in
      rw (← same) (
        refl,
        (
          bind_assignments-known plan.assignments assignments here set,
          bind_predicate-IsKnown plan.filter filter there tested,
        ),
        same_emptiness (bind_assignment parameters) plan.assignments assignments here shaped,
      )
  bind_plan-keeps (delete plan) bound h known shaped =
      let (filter, here, h1) = >>=-eq-ok (bind_predicate plan.filter parameters) _ h in
      let same : delete (record plan { filter = filter }) ≡ bound = ok_injective h1 in
      rw (← same) (refl, bind_predicate-IsKnown plan.filter filter here known, tt)

pub bound_parts :
    (plan bound : StatementPlan) (parameters : List SqlValue) (schema : SchemaProfile)
    → bind_parameters plan parameters schema ≡ ok bound
    → (bind_plan plan parameters ≡ ok bound) × (validate_bound_plan bound schema ≡ ok tt)
unfolding bind_parameters
bound_parts plan bound parameters schema h = elim (Bool-cases (any is_placeholder parameters)) [
  | inl open_value ↦ absurd (ground (arith, open_value))
  | inr closed ↦ (ground arith, ground arith)
]

-- Binding keeps the invariant of lowered plans: if a plan on a collection has known fields alone and
-- the shape of its statement, then the plan that binding gives is on the same collection, has known
-- fields alone and that shape, and its values pass the type policy.
pub bind_parameters-IsLowered :
    (schema : SchemaProfile) (collection : String) (plan bound : StatementPlan)
    (parameters : List SqlValue)
    → IsLowered schema collection plan
    → bind_parameters plan parameters schema ≡ ok bound
    → IsLowered schema collection bound
unfolding bind_parameters
bind_parameters-IsLowered schema collection plan bound parameters lowered h =
    let (values, valid) = bound_parts plan bound parameters schema h in
    let (same, known, shaped) =
      bind_plan-keeps schema parameters plan bound values lowered.known lowered.shaped in
    record {
      on_collection = same ∙ lowered.on_collection;
      known = known;
      shaped = shaped;
      valid = valid;
    }
