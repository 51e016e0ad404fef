-- ===== src/Sql/Lowering/Routed.antt =====
-- A routed statement only meets its own collection, and write detection only meets known fields.
use mongres.Prelude.{String, List, [], ◌∷◌, Option, ◌≡◌, refl, All, none, some, map}
use mongres.F64.{F64}
use mongres.Order.Derived.{list_ord}
use mongres.Order.Text.{text_ord}
use mongres.BTree.{get}
use mongres.BTree.Lookup.{All-add, All-extend}
use mongres.Common.{Result, ok}
use mongres.Common.Results.{>>=-eq-ok, ok_or}
use mongres.Schema.{FieldPath, SchemaProfile}
use mongres.Plan
use mongres.Plan.{
  Predicate, Predicates, compare, in_list, is_null, and, or, AssignmentPlan, StatementPlan, select,
  insert, update, delete, collection_from_plan,
}
use mongres.Policy.{WriteAmbiguity, WriteOperation}
use mongres.Policy.Detect.{
  collect_predicate_paths, collect_predicates_paths, ambiguity_for_path, ambiguity_from,
  ambiguity_kinds, detect_paths, written_paths, detect_write_ambiguities, write_operation,
}
use mongres.Sql.Ast.{Statement}
use mongres.Sql.Resolve.Known.{PathIsKnown, PredicateIsKnown, PredicatesAreKnown}
use mongres.Sql.Lowering.{collection_name_from_statement}
use mongres.Sql.Lowering.Router.{parse_one_statement, parse_sql_for_profiles, not_allowlisted}
use mongres.Sql.Lowering.Known.{PlanIsKnown}
use mongres.Sql.Lowering.Sound.{IsLowered, lower_statement-IsLowered}

-- The map has a profile under the plan's collection, and the plan is lowered against it.
abbrev pub IsRouted : List (String × SchemaProfile) → StatementPlan → Type 0
IsRouted profiles plan =
    (schema : SchemaProfile) × (get (collection_from_plan plan) profiles ≡ some schema)
    × IsLowered schema (collection_from_plan plan) plan

some_of_ok_or : {A E : Type 0} (o : Option A) (e : E) (a : A) → ok_or o e ≡ ok a → o ≡ some a
some_of_ok_or none e a h = cc
some_of_ok_or (some b) e a h = cc

-- A statement that the router accepts has a plan on a collection of the configured profiles, and is
-- lowered against that collection's profile alone: all fields of the plan are of that profile, the
-- values pass its type policy, and the rows of an insert fit its columns.
pub parse_sql_for_profiles-IsRouted :
    (parse_statements : String → Result String (List Statement)) (parse_f64 : String → Option F64)
    (sql : String) (profiles : List (String × SchemaProfile)) (plan : StatementPlan)
    → parse_sql_for_profiles parse_statements parse_f64 sql profiles ≡ ok plan
    → IsRouted profiles plan
unfolding parse_sql_for_profiles
parse_sql_for_profiles-IsRouted parse_statements parse_f64 sql profiles plan h =
    let (statement, _, h1) = >>=-eq-ok (parse_one_statement parse_statements parse_f64 sql) _ h in
    let (c, _, h2) = >>=-eq-ok (collection_name_from_statement statement) _ h1 in
    let (schema, found, h3) = >>=-eq-ok (ok_or (get c profiles) (not_allowlisted c)) _ h2 in
    let lowered = lower_statement-IsLowered schema c parse_f64 statement plan h3 in
    let same : collection_from_plan plan ≡ c = lowered.on_collection in
    rw same (schema, some_of_ok_or (get c profiles) (not_allowlisted c) schema found, lowered)

module _ (schema : SchemaProfile) where
  mutual
    unfolding collect_predicate_paths

    collected_known :
        (p : Predicate) (paths : List FieldPath)
        → PredicateIsKnown schema p
        → All (PathIsKnown schema) paths
        → All (PathIsKnown schema) (collect_predicate_paths p paths)
    collected_known (compare path op v) paths known h =
        All-add (PathIsKnown schema) path paths known h
    collected_known (in_list path vs negated) paths known h =
        All-add (PathIsKnown schema) path paths known h
    collected_known (is_null path negated) paths known h =
        All-add (PathIsKnown schema) path paths known h
    collected_known (and ps) paths known h = All-collected_known ps paths known h
    collected_known (or ps) paths known h = All-collected_known ps paths known h

    All-collected_known :
        (ps : Predicates) (paths : List FieldPath)
        → PredicatesAreKnown schema ps
        → All (PathIsKnown schema) paths
        → All (PathIsKnown schema) (collect_predicates_paths ps paths)
    All-collected_known Plan.nil paths known h = h
    All-collected_known (Plan.cons p ps) paths (here, known) h =
        All-collected_known ps (collect_predicate_paths p paths) known
          (collected_known p paths here h)

  assigned_known :
      (assignments : List AssignmentPlan)
      → All (λ a. PathIsKnown schema a.path) assignments
      → All (PathIsKnown schema) (map (λ a. a.path) assignments)
  assigned_known [] h = tt
  assigned_known (a ∷ rest) (here, h) = (here, assigned_known rest h)

  written_known :
      (plan : StatementPlan) (operation : WriteOperation)
      → write_operation plan ≡ ok operation
      → PlanIsKnown schema plan
      → (paths : List FieldPath) × (written_paths plan ≡ ok paths) × All (PathIsKnown schema) paths
  unfolding written_paths write_operation
  written_known (select plan) operation w known = cc
  written_known (insert plan) operation w known =
      (_, refl, All-extend (PathIsKnown schema) [] plan.columns tt known)
  written_known (update plan) operation w (set, tested) = (
    _,
    refl,
    collected_known plan.filter _ tested
        (All-extend (PathIsKnown schema) [] _ tt (assigned_known plan.assignments set)),
  )
  written_known (delete plan) operation w known = (_, refl, collected_known plan.filter [] known tt)

  detect_paths_total :
      (paths : List FieldPath)
      → All (PathIsKnown schema) paths
      → (found : List WriteAmbiguity) × (detect_paths schema paths ≡ ok found)
  unfolding detect_paths ambiguity_for_path
  detect_paths_total [] h = ([], refl)
  detect_paths_total (path ∷ paths) ((f, found), h) =
      let (rest, detected) = detect_paths_total paths h in
      (
        elim (ambiguity_from path f (ambiguity_kinds f)) as (λ _. List WriteAmbiguity) [
          | none ↦ rest
          | some a ↦ a ∷ rest
        ],
        rw (found, detected) refl,
      )

-- For a write statement that the router accepts, the detection of ambiguities against the profile of
-- its collection gives a list: it does not fail.
pub parse_sql_for_profiles-detects :
    (parse_statements : String → Result String (List Statement)) (parse_f64 : String → Option F64)
    (sql : String) (profiles : List (String × SchemaProfile)) (plan : StatementPlan)
    (operation : WriteOperation)
    → parse_sql_for_profiles parse_statements parse_f64 sql profiles ≡ ok plan
    → write_operation plan ≡ ok operation
    → (schema : SchemaProfile) × (get (collection_from_plan plan) profiles ≡ some schema)
      × (found : List WriteAmbiguity) × (detect_write_ambiguities plan schema ≡ ok found)
unfolding detect_write_ambiguities
parse_sql_for_profiles-detects parse_statements parse_f64 sql profiles plan operation h w =
    let (schema, found, lowered) =
      parse_sql_for_profiles-IsRouted parse_statements parse_f64 sql profiles plan h in
    let (paths, written, known) = written_known schema plan operation w lowered.known in
    let (ambiguities, detected) = detect_paths_total schema paths known in
    (schema, found, ambiguities, rw (written, detected) refl)
