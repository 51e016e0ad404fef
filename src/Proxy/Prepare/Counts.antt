-- ===== src/Proxy/Prepare/Counts.antt =====
-- The number of inferred parameter types is the number of parameters that binding needs.
use mongres.Prelude.{
  ℕ, zero, suc, max, ◌≤◌, String, List, [], ◌∷◌, ◌≡◌, refl, sym, ap, ◌∙◌, arith, Option-cases, inl,
  inr, length, length-append, All,
}
use mongres.Order.Number.{nat_ord}
use mongres.BTree.{insert, get}
use mongres.Common.{Result, ok, ProxyError}
use mongres.Common.Results.{>>=-eq-ok, ok_injective, length-traverse, try_fold, ok_or}
use mongres.Schema.{FieldPath, SchemaProfile}
use mongres.Plan
use mongres.Plan.{
  SqlValue, placeholder, Predicate, Predicates, compare, in_list, is_null, and, or, AssignmentPlan,
  StatementPlan, select, update, delete,
}
use mongres.Binding.{
  parse_placeholder_index, placeholder_index, max_with, max_row, maximum_predicate_index,
  maximum_predicates_index, maximum_placeholder_index,
}
use mongres.Sql.Lowering.Known.{HasShape}
use mongres.Proxy.PgType.{PgType}
use mongres.Proxy.Prepare.{
  TypeMap, put_type, infer_field_parameter_type, collect_value_parameter_type,
  collect_predicate_parameter_types, collect_predicates_parameter_types,
  collect_row_parameter_types, collect_plan_parameter_types, last_key_from, last_key, one_to,
  no_type_context, infer_parameter_types,
}

-- The keys ascend from `key` on.
abbrev Ascends : ℕ → TypeMap → Type 0
Ascends key [] = Unit {0}
Ascends key ((i, t) ∷ types) = (key ≤ i) × Ascends i types

last_key-le : (key : ℕ) (types : TypeMap) → Ascends key types → key ≤ last_key_from key types
last_key-le key [] h = omega arith
last_key-le key ((i, t) ∷ types) (here, h) = omega (arith, last_key-le i types h)

last_key-insert :
    (key k : ℕ) (v : PgType) (types : TypeMap)
    → Ascends key types
    → key ≤ k
    → (last_key_from key (insert k v types) ≡ max k (last_key_from key types))
      × Ascends key (insert k v types)
unfolding insert
last_key-insert key k v [] h le = (omega arith, (le, tt))
last_key-insert key k v ((i, t) ∷ types) (here, h) le =
    ground (arith, last_key-le i types h, last_key-insert i k v types h)

-- A step that adds the index `index` gives to the keys of the map.
abbrev Collected : Result ProxyError ℕ → TypeMap → TypeMap → Type 0
Collected index types out =
    (n : ℕ) × (index ≡ ok n) × Ascends 0 out × (last_key out ≡ max (last_key types) n)

put_type_lem :
    (p : String) (k : ℕ) (t : PgType) (types out : TypeMap)
    → put_type p k t types ≡ ok out
    → insert k t types ≡ out
unfolding put_type
put_type_lem p k t types out h = elim (Option-cases (get k types)) [
  | inl fresh ↦ ok_injective (rw (put_type, fresh) at h)
  | inr (existing, found) ↦ ground (arith, rw (put_type, found) at h)
]

none_here :
    (types out : TypeMap)
    → ◌≡◌ {A = Result ProxyError TypeMap} (ok types) (ok out)
    → Ascends 0 types
    → Collected (ok 0) types out
none_here types out h sorted =
    let same : types ≡ out = ok_injective h in rw (← same) (0, refl, sorted, omega arith)

from_zero :
    (index : Result ProxyError ℕ) (types out : TypeMap)
    → (n : ℕ) × (index ≡ ok (max 0 n)) × Ascends 0 out × (last_key out ≡ max (last_key types) n)
    → Collected index types out
from_zero index types out (n, found, sorted, last) = (n, found ∙ ap ok (omega arith), sorted, last)

module _ (schema : SchemaProfile) where
  value_lem :
      (path : FieldPath) (types : TypeMap) (v : SqlValue) (out : TypeMap)
      → collect_value_parameter_type schema path types v ≡ ok out
      → Ascends 0 types
      → Collected (placeholder_index v) types out
  unfolding collect_value_parameter_type placeholder_index
  value_lem path types (placeholder p) out h sorted =
      let (k, parsed, h1) = >>=-eq-ok (parse_placeholder_index p) _ h in
      let (t, _, h2) = >>=-eq-ok (infer_field_parameter_type path schema) _ h1 in
      let (last, ascends) = last_key-insert 0 k t types sorted (omega arith) in
      rw (← put_type_lem p k t types out h2) (k, parsed, ascends, omega (arith, last))
  value_lem path types SqlValue.null out h sorted = none_here types out h sorted
  value_lem path types (SqlValue.boolean b) out h sorted = none_here types out h sorted
  value_lem path types (SqlValue.integer n) out h sorted = none_here types out h sorted
  value_lem path types (SqlValue.floating_point x) out h sorted = none_here types out h sorted
  value_lem path types (SqlValue.string s) out h sorted = none_here types out h sorted

  fold_lem :
      {A : Type 0} (step : TypeMap → A → Result ProxyError TypeMap) (f : A → Result ProxyError ℕ)
      → ((types : TypeMap) (a : A) (out : TypeMap)
          → step types a ≡ ok out
          → Ascends 0 types
          → Collected (f a) types out)
      → (xs : List A) (types out : TypeMap) (start : ℕ) → try_fold step types xs ≡ ok out
      → Ascends 0 types
      → (n : ℕ) × (try_fold (max_with f) start xs ≡ ok (max start n))
        × Ascends 0 out
        × (last_key out ≡ max (last_key types) n)
  unfolding try_fold
  fold_lem step f each [] types out start h sorted =
      let same : types ≡ out = ok_injective h in
      rw (← same) (0, ap ok (omega arith), sorted, omega arith)
  fold_lem step f each (x ∷ xs) types out start h sorted =
      let (mid, first, h1) = >>=-eq-ok (step types x) _ h in
      let (n, index, sorted', last) = each types x mid first sorted in
      let (m, rest, sorted2, last2) = fold_lem step f each xs mid out (max start n) h1 sorted' in
      (max n m, rw index (rest ∙ ap ok (omega arith)), sorted2, omega (arith, last, last2))

  mutual
    unfolding collect_predicate_parameter_types maximum_predicate_index

    predicate_lem :
        (p : Predicate) (types out : TypeMap)
        → collect_predicate_parameter_types schema p types ≡ ok out
        → Ascends 0 types
        → Collected (maximum_predicate_index p) types out
    predicate_lem (compare path op v) types out h sorted = value_lem path types v out h sorted
    predicate_lem (in_list path vs negated) types out h sorted = from_zero _ types out (
        fold_lem (collect_value_parameter_type schema path) placeholder_index (value_lem path) vs
          types out 0 h sorted)
    predicate_lem (is_null path negated) types out h sorted = none_here types out h sorted
    predicate_lem (and ps) types out h sorted =
        from_zero _ types out (predicates_lem ps types out 0 h sorted)
    predicate_lem (or ps) types out h sorted =
        from_zero _ types out (predicates_lem ps types out 0 h sorted)

    predicates_lem :
        (ps : Predicates) (types out : TypeMap) (start : ℕ)
        → collect_predicates_parameter_types schema ps types ≡ ok out
        → Ascends 0 types
        → (n : ℕ) × (maximum_predicates_index ps start ≡ ok (max start n))
          × Ascends 0 out
          × (last_key out ≡ max (last_key types) n)
    predicates_lem Plan.nil types out start h sorted =
        let same : types ≡ out = ok_injective h in
        rw (← same) (0, ap ok (omega arith), sorted, omega arith)
    predicates_lem (Plan.cons p ps) types out start h sorted =
        let (mid, first, h1) = >>=-eq-ok (collect_predicate_parameter_types schema p types) _ h in
        let (n, index, sorted', last) = predicate_lem p types mid first sorted in
        let (m, rest, sorted2, last2) = predicates_lem ps mid out (max start n) h1 sorted' in
        (max n m, rw index (rest ∙ ap ok (omega arith)), sorted2, omega (arith, last, last2))

  row_lem :
      (columns : List FieldPath) (row : List SqlValue) (types out : TypeMap) (start : ℕ)
      → length row ≡ length columns
      → collect_row_parameter_types schema columns types row ≡ ok out
      → Ascends 0 types
      → (n : ℕ) × (max_row start row ≡ ok (max start n))
        × Ascends 0 out
        × (last_key out ≡ max (last_key types) n)
  unfolding collect_row_parameter_types try_fold
  row_lem [] [] types out start fits h sorted =
      let same : types ≡ out = ok_injective h in
      rw (← same) (0, ap ok (omega arith), sorted, omega arith)
  row_lem [] (v ∷ row) types out start fits h sorted = absurd (omega arith)
  row_lem (path ∷ columns) [] types out start fits h sorted = absurd (omega arith)
  row_lem (path ∷ columns) (v ∷ row) types out start fits h sorted =
      let (mid, first, h1) = >>=-eq-ok (collect_value_parameter_type schema path types v) _ h in
      let (n, index, sorted', last) = value_lem path types v mid first sorted in
      let (m, rest, sorted2, last2) =
        row_lem columns row mid out (max start n) (omega arith) h1 sorted' in
      (max n m, rw index (rest ∙ ap ok (omega arith)), sorted2, omega (arith, last, last2))

  rows_lem :
      (columns : List FieldPath) (rows : List (List SqlValue)) (types out : TypeMap) (start : ℕ)
      → All (λ row. length row ≡ length columns) rows
      → try_fold (collect_row_parameter_types schema columns) types rows ≡ ok out
      → Ascends 0 types
      → (n : ℕ) × (try_fold max_row start rows ≡ ok (max start n))
        × Ascends 0 out
        × (last_key out ≡ max (last_key types) n)
  unfolding try_fold
  rows_lem columns [] types out start fits h sorted =
      let same : types ≡ out = ok_injective h in
      rw (← same) (0, ap ok (omega arith), sorted, omega arith)
  rows_lem columns (row ∷ rows) types out start (here, fits) h sorted =
      let (mid, first, h1) = >>=-eq-ok (collect_row_parameter_types schema columns types row) _ h in
      let (n, index, sorted', last) = row_lem columns row types mid start here first sorted in
      let (m, rest, sorted2, last2) = rows_lem columns rows mid out (max start n) fits h1 sorted' in
      (max n m, rw index (rest ∙ ap ok (omega arith)), sorted2, omega (arith, last, last2))

  plan_lem :
      (plan : StatementPlan) (out : TypeMap)
      → HasShape plan
      → collect_plan_parameter_types schema plan ≡ ok out
      → maximum_placeholder_index plan ≡ ok (last_key out)
  unfolding collect_plan_parameter_types maximum_placeholder_index
  plan_lem (select plan) out shaped h = elim (Option-cases plan.filter) [
    | inl none_given ↦
        let same : [] ≡ out = ok_injective (rw none_given at h) in rw (none_given, ← same) refl
    | inr (p, given) ↦
        let (n, index, _, last) = predicate_lem p [] out (rw given at h) tt in
        rw (given, index) (ap ok (omega (arith, last)))
  ]
  plan_lem (Plan.insert plan) out (_, _, fits) h =
      let (n, index, _, last) = rows_lem plan.columns plan.rows [] out 0 fits h tt in
      index ∙ ap ok (omega (arith, last))
  plan_lem (update plan) out shaped h =
      let (mid, first, h1) =
        >>=-eq-ok
          (try_fold
            (λ types (a : AssignmentPlan). collect_value_parameter_type schema a.path types a.value)
            [] plan.assignments)
          _ h in
      let (n, index, sorted, last) =
        fold_lem
          (λ types (a : AssignmentPlan). collect_value_parameter_type schema a.path types a.value)
          (λ a. placeholder_index a.value)
          (λ types a out e s. value_lem a.path types a.value out e s) plan.assignments [] mid 0
          first tt in
      let (m, rest, _, last2) = predicate_lem plan.filter mid out h1 sorted in
      rw (index, rest) (ap ok (omega (arith, last, last2)))
  plan_lem (delete plan) out shaped h =
      let (n, index, _, last) = predicate_lem plan.filter [] out h tt in
      index ∙ ap ok (omega (arith, last))

length-one_to : (n : ℕ) → length (one_to n) ≡ n
length-one_to zero = refl
length-one_to (suc n) = omega (arith, length-append (one_to n) (suc n ∷ []), length-one_to n)

-- Of a plan in the shape of its statement, the inferred parameter types are as many as the
-- parameters that binding requires: a client that sends one value for each type that it was told is
-- not refused for their number.
pub infer_parameter_types-length :
    (plan : StatementPlan) (schema : SchemaProfile) (types : List PgType)
    → HasShape plan
    → infer_parameter_types schema plan ≡ ok types
    → maximum_placeholder_index plan ≡ ok (length types)
unfolding infer_parameter_types
infer_parameter_types-length plan schema types shaped h =
    let (map, collected, h1) = >>=-eq-ok (collect_plan_parameter_types schema plan) _ h in
    plan_lem schema plan map shaped collected
    ∙ ap ok (
        sym (
          length-traverse (λ index. ok_or (get index map) (no_type_context index))
            (one_to (last_key map)) types h1
          ∙ length-one_to (last_key map)))
