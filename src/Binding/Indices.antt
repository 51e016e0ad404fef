-- ===== src/Binding/Indices.antt =====
-- The largest placeholder index is the number of parameters that binding needs.
use mongres.Prelude.{ℕ, ◌≤◌, max, String, List, [], ◌∷◌, Option, none, some, ◌≡◌, arith, All}
use mongres.Common.{Result, ok, ProxyError}
use mongres.Common.Results.{try_fold, ok_or, >>=-eq-ok, ok_injective}
use mongres.Plan.{
  SqlValue, placeholder, Predicate, Predicates, compare, in_list, is_null, and, or, nil, cons,
  StatementPlan, select, insert, update, delete,
}
use mongres.Binding.{
  parse_placeholder_index, placeholder_index, max_with, max_row, maximum_predicate_index,
  maximum_predicates_index, maximum_placeholder_index,
}

-- A placeholder's index is read, and lies between 1 and `n`.
abbrev pub Fits : ℕ → SqlValue → Type 0
Fits n (placeholder p) = (i : ℕ) × (parse_placeholder_index p ≡ ok i) × (1 ≤ i) × (i ≤ n)
Fits n v = Unit

abbrev mutual
  pub PredicateFits : ℕ → Predicate → Type 0
  PredicateFits n (compare path op v) = Fits n v
  PredicateFits n (in_list path vs negated) = All (Fits n) vs
  PredicateFits n (is_null path negated) = Unit
  PredicateFits n (and ps) = PredicatesFit n ps
  PredicateFits n (or ps) = PredicatesFit n ps

  pub PredicatesFit : ℕ → Predicates → Type 0
  PredicatesFit n nil = Unit
  PredicatesFit n (cons p ps) = PredicateFits n p × PredicatesFit n ps

abbrev pub PlanFits : ℕ → StatementPlan → Type 0
PlanFits n (select plan) = elim plan.filter [ none ↦ Unit | some p ↦ PredicateFits n p ]
PlanFits n (insert plan) = All (All (Fits n)) plan.rows
PlanFits n (update plan) = All (λ a. Fits n a.value) plan.assignments × PredicateFits n plan.filter
PlanFits n (delete plan) = PredicateFits n plan.filter

-- A fold of maxima is at least its start and at least every index of the list.
module _ {A : Type 0} (f : A → Result ProxyError ℕ) where
  fold_max-All :
      (n : ℕ) (P : A → Type 0)
      → ((a : A) (i : ℕ) → f a ≡ ok i → i ≤ n → P a)
      → (start top : ℕ) (xs : List A) → try_fold (max_with f) start xs ≡ ok top
      → top ≤ n
      → (start ≤ top) × All P xs
  unfolding try_fold
  fold_max-All n P keep start top [] e le = (ground arith, tt)
  fold_max-All n P keep start top (x ∷ xs) e le =
      let (m, step, e') = >>=-eq-ok (max_with f start x) _ e in
      let (i, here, e'') = >>=-eq-ok (f x) _ step in
      let at_least : max start i ≡ m = ok_injective e'' in
      let (above, rest) = fold_max-All n P keep m top xs e' le in
      (omega arith, (keep x i here (omega arith), rest))

parse_placeholder_index-pos : (p : String) (i : ℕ) → parse_placeholder_index p ≡ ok i → 1 ≤ i
unfolding parse_placeholder_index
parse_placeholder_index-pos p i e =
    let (s, _, e') = >>=-eq-ok (ok_or (mongres.Text.strip_prefix_char b'$' p) _) _ e in
    let (n, _, e'') = >>=-eq-ok (ok_or (mongres.Text.Decimal.parse_usize s) _) _ e' in ground arith

placeholder_index-Fits :
    (n : ℕ) (v : SqlValue) (i : ℕ) → placeholder_index v ≡ ok i → i ≤ n → Fits n v
unfolding placeholder_index
placeholder_index-Fits n (placeholder p) i e le = (i, e, parse_placeholder_index-pos p i e, le)
placeholder_index-Fits n v i e le = tt

mutual
  unfolding maximum_predicate_index

  predicate-Fits :
      (n : ℕ) (p : Predicate) (i : ℕ) → maximum_predicate_index p ≡ ok i → i ≤ n → PredicateFits n p
  predicate-Fits n (compare path op v) i e le = placeholder_index-Fits n v i e le
  predicate-Fits n (in_list path vs negated) i e le =
      (fold_max-All placeholder_index n (Fits n) (placeholder_index-Fits n) 0 i vs e le).1
  predicate-Fits n (is_null path negated) i e le = tt
  predicate-Fits n (and ps) i e le = (predicates-Fit n ps 0 i e le).1
  predicate-Fits n (or ps) i e le = (predicates-Fit n ps 0 i e le).1

  predicates-Fit :
      (n : ℕ) (ps : Predicates) (start i : ℕ)
      → maximum_predicates_index ps start ≡ ok i
      → i ≤ n
      → (start ≤ i) × PredicatesFit n ps
  predicates-Fit n nil start i e le = (ground arith, tt)
  predicates-Fit n (cons p ps) start i e le =
      let (j, here, e') = >>=-eq-ok (maximum_predicate_index p) _ e in
      let (at_least, rest) = predicates-Fit n ps (max start j) i e' le in
      (omega arith, (predicate-Fits n p j here (omega arith), rest))

row-Fits :
    (n : ℕ) (start i : ℕ) (row : List SqlValue)
    → max_row start row ≡ ok i
    → i ≤ n
    → (start ≤ i) × All (Fits n) row
row-Fits n start i row e le =
    fold_max-All placeholder_index n (Fits n) (placeholder_index-Fits n) start i row e le

rows-Fit :
    (n : ℕ) (start i : ℕ) (rows : List (List SqlValue))
    → try_fold max_row start rows ≡ ok i
    → i ≤ n
    → (start ≤ i) × All (All (Fits n)) rows
unfolding try_fold
rows-Fit n start i [] e le = (ground arith, tt)
rows-Fit n start i (row ∷ rows) e le =
    let (m, here, e') = >>=-eq-ok (max_row start row) _ e in
    let (above, rest) = rows-Fit n m i rows e' le in
    let (below, first) = row-Fits n start m row here (omega arith) in (omega arith, (first, rest))

filter-Fits :
    (n : ℕ) (o : Option Predicate)
    → (elim o as (λ _. Result ProxyError ℕ) [
      | none ↦ ok 0
      | some p ↦ max_with maximum_predicate_index 0 p
    ])
      ≡ ok n
    → (elim o as (λ _. Type 0) [ none ↦ Unit | some p ↦ PredicateFits n p ])
filter-Fits n none e = tt
filter-Fits n (some p) e =
    let (i, here, e') = >>=-eq-ok (maximum_predicate_index p) _ e in
    let at_least : max 0 i ≡ n = ok_injective e' in predicate-Fits n p i here (omega arith)

-- Where the largest index of a plan is computed, every placeholder of the plan fits it.
pub maximum_placeholder_index-PlanFits :
    (n : ℕ) (plan : StatementPlan) → maximum_placeholder_index plan ≡ ok n → PlanFits n plan
unfolding maximum_placeholder_index
maximum_placeholder_index-PlanFits n (select plan) e = filter-Fits n plan.filter e
maximum_placeholder_index-PlanFits n (insert plan) e = (rows-Fit n 0 n plan.rows e (omega arith)).1
maximum_placeholder_index-PlanFits n (update plan) e =
    let (m, first, e') =
      >>=-eq-ok (try_fold (max_with (λ a. placeholder_index a.value)) 0 plan.assignments) _ e in
    let (i, here, e'') = >>=-eq-ok (maximum_predicate_index plan.filter) _ e' in
    let at_least : max m i ≡ n = ok_injective e'' in
    (
      (fold_max-All (λ a. placeholder_index a.value) n (λ a. Fits n a.value)
          (λ a. placeholder_index-Fits n a.value) 0 m plan.assignments first (omega arith)).1,
      predicate-Fits n plan.filter i here (omega arith),
    )
maximum_placeholder_index-PlanFits n (delete plan) e =
    predicate-Fits n plan.filter n e (omega arith)
