-- ===== src/Binding/Closed.antt =====
-- What binding leaves of a plan: no placeholder anywhere, and nothing else changed.
use mongres.Prelude.{
  ℕ, ◌-◌, false, List, [], ◌∷◌, Option, none, some, get_elem?, any, ◌≡◌, arith, All, All-get_elem?,
  Option-cases, Bool-cases, inl, inr, subst,
}
use mongres.Common.{ok, ProxyError}
use mongres.Common.Results.{traverse, transpose, ok_or, >>=-eq-ok, ok_injective, traverse-All}
use mongres.Schema.{SchemaProfile}
use mongres.Plan.{
  SqlValue, placeholder, Predicate, Predicates, compare, in_list, is_null, and, or, nil, cons,
  AssignmentPlan, StatementPlan, select, insert, update, delete,
}
use mongres.Binding.{
  is_placeholder, bind_value, bind_predicate, bind_predicates, bind_row, bind_assignment, bind_plan,
  parse_placeholder_index, bind_parameters,
}

-- A value that is not a placeholder.
abbrev pub IsBound : SqlValue → Type 0
IsBound v = is_placeholder v ≡ false

abbrev mutual
  pub IsClosed : Predicate → Type 0
  IsClosed (compare path op value) = IsBound value
  IsClosed (in_list path values negated) = All IsBound values
  IsClosed (is_null path negated) = Unit
  IsClosed (and ps) = AreClosed ps
  IsClosed (or ps) = AreClosed ps

  pub AreClosed : Predicates → Type 0
  AreClosed nil = Unit
  AreClosed (cons p ps) = IsClosed p × AreClosed ps

-- A plan with no placeholder.
abbrev pub PlanIsClosed : StatementPlan → Type 0
PlanIsClosed (select plan) = elim plan.filter [ none ↦ Unit | some p ↦ IsClosed p ]
PlanIsClosed (insert plan) = All (All IsBound) plan.rows
PlanIsClosed (update plan) = All (λ a. IsBound a.value) plan.assignments × IsClosed plan.filter
PlanIsClosed (delete plan) = IsClosed plan.filter

All-IsBound :
    (parameters : List SqlValue) → any is_placeholder parameters ≡ false → All IsBound parameters
All-IsBound [] h = tt
All-IsBound (v ∷ vs) h = ground (arith, All-IsBound vs)

module _ (parameters : List SqlValue) (bound : All IsBound parameters) where
  found-IsBound :
      (i : ℕ) (x : ProxyError) (w : SqlValue) → ok_or (get_elem? parameters i) x ≡ ok w → IsBound w
  found-IsBound i x w e = elim (Option-cases (get_elem? parameters i)) [
    | inl missing ↦ absurd (ground (arith, missing))
    | inr (v, found) ↦
        let same : v ≡ w = ground arith in
        rw same at (All-get_elem? IsBound parameters i bound found)
  ]

  bind_value-IsBound : (v w : SqlValue) → bind_value v parameters ≡ ok w → IsBound w
  unfolding bind_value
  bind_value-IsBound (placeholder p) w e =
      let (i, _, e') = >>=-eq-ok (parse_placeholder_index p) _ e in found-IsBound (i - 1) _ w e'
  bind_value-IsBound v w e = ground arith

  bind_row-IsBound :
      (vs ws : List SqlValue) → traverse (λ v. bind_value v parameters) vs ≡ ok ws → All IsBound ws
  bind_row-IsBound = traverse-All (λ v. bind_value v parameters) IsBound bind_value-IsBound

  mutual
    unfolding bind_predicate

    bind_predicate-IsClosed : (p q : Predicate) → bind_predicate p parameters ≡ ok q → IsClosed q
    bind_predicate-IsClosed (compare path op v) q e =
        let (w, here, e') = >>=-eq-ok (bind_value v parameters) _ e in
        subst IsClosed (ok_injective e') (bind_value-IsBound v w here)
    bind_predicate-IsClosed (in_list path vs negated) q e =
        let (ws, here, e') = >>=-eq-ok (traverse (λ v. bind_value v parameters) vs) _ e in
        subst IsClosed (ok_injective e') (bind_row-IsBound vs ws here)
    bind_predicate-IsClosed (is_null path negated) q e = subst IsClosed (ok_injective e) tt
    bind_predicate-IsClosed (and ps) q e =
        let (qs, here, e') = >>=-eq-ok (bind_predicates ps parameters) _ e in
        subst IsClosed (ok_injective e') (bind_predicates-AreClosed ps qs here)
    bind_predicate-IsClosed (or ps) q e =
        let (qs, here, e') = >>=-eq-ok (bind_predicates ps parameters) _ e in
        subst IsClosed (ok_injective e') (bind_predicates-AreClosed ps qs here)

    bind_predicates-AreClosed :
        (ps qs : Predicates) → bind_predicates ps parameters ≡ ok qs → AreClosed qs
    bind_predicates-AreClosed nil qs e = subst AreClosed (ok_injective e) tt
    bind_predicates-AreClosed (cons p ps) qs e =
        let (q, here, e') = >>=-eq-ok (bind_predicate p parameters) _ e in
        let (qs', there, e'') = >>=-eq-ok (bind_predicates ps parameters) _ e' in
        subst AreClosed (ok_injective e'')
          (bind_predicate-IsClosed p q here, bind_predicates-AreClosed ps qs' there)

  bind_assignment-IsBound :
      (a b : AssignmentPlan) → bind_assignment parameters a ≡ ok b → IsBound b.value
  bind_assignment-IsBound a b e =
      let (w, here, e') = >>=-eq-ok (bind_value a.value parameters) _ e in
      subst (λ (c : AssignmentPlan). IsBound c.value) (ok_injective e')
        (bind_value-IsBound a.value w here)

  bind_plan-PlanIsClosed :
      (plan out : StatementPlan) → bind_plan plan parameters ≡ ok out → PlanIsClosed out
  unfolding bind_plan
  bind_plan-PlanIsClosed (select plan) out e =
      let (f, here, e') =
        >>=-eq-ok (transpose (λ p. bind_predicate p parameters) plan.filter) _ e in
      subst PlanIsClosed (ok_injective e') (filter plan.filter f here)
    where
      filter :
          (o f : Option Predicate)
          → transpose (λ p. bind_predicate p parameters) o ≡ ok f
          → (elim f as (λ _. Type 0) [ none ↦ Unit | some p ↦ IsClosed p ])
      filter o none h = tt
      filter none (some q) h = unfold transpose in (absurd (ground arith))
      filter (some p) (some q) h = bind_predicate-IsClosed p q (unfold transpose in (ground arith))
  bind_plan-PlanIsClosed (insert plan) out e =
      let (rows, here, e') = >>=-eq-ok (traverse (bind_row parameters) plan.rows) _ e in
      subst PlanIsClosed (ok_injective e')
        (traverse-All (bind_row parameters) (All IsBound) bind_row-IsBound plan.rows rows here)
  bind_plan-PlanIsClosed (update plan) out e =
      let (bs, here, e') = >>=-eq-ok (traverse (bind_assignment parameters) plan.assignments) _ e in
      let (f, there, e'') = >>=-eq-ok (bind_predicate plan.filter parameters) _ e' in
      subst PlanIsClosed (ok_injective e'') (
        traverse-All (bind_assignment parameters) (λ b. IsBound b.value) bind_assignment-IsBound
            plan.assignments bs here,
        bind_predicate-IsClosed plan.filter f there,
      )
  bind_plan-PlanIsClosed (delete plan) out e =
      let (f, here, e') = >>=-eq-ok (bind_predicate plan.filter parameters) _ e in
      subst PlanIsClosed (ok_injective e') (bind_predicate-IsClosed plan.filter f here)

-- A plan that `bind_parameters` returns has no placeholder left, in any value of any clause.
pub bind_parameters-PlanIsClosed :
    (plan out : StatementPlan) (parameters : List SqlValue) (schema : SchemaProfile)
    → bind_parameters plan parameters schema ≡ ok out
    → PlanIsClosed out
unfolding bind_parameters
bind_parameters-PlanIsClosed plan out parameters schema e =
    elim (Bool-cases (any is_placeholder parameters)) [
      | inl some_placeholder ↦ absurd (ground (arith, some_placeholder))
      | inr bound ↦
          bind_plan-PlanIsClosed parameters (All-IsBound parameters bound) plan out (ground arith)
    ]
