-- ===== src/Policy/Detect/Mentioned.antt =====
-- Detection examines exactly the paths that a write plan mentions.
use mongres.Prelude.{
  Bool, true, false, ◌||◌, List, [], ◌∷◌, ◌≡◌, ◌↔◌, refl, sym, ◌∙◌, arith, any, map,
}
use mongres.Order.{◌=ₖ◌, =ₖ_sym}
use mongres.Order.Derived.{list_ord}
use mongres.Order.Text.{text_ord}
use mongres.BTree.{contains, extend}
use mongres.BTree.Lookup.{contains-add, contains-extend, All-contains, All-of_contains}
use mongres.Common.{ok}
use mongres.Schema.{FieldPath, SchemaProfile}
use mongres.Plan.{
  Predicate, Predicates, compare, in_list, is_null, and, or, nil, cons, AssignmentPlan,
  StatementPlan, select, insert, update, delete,
}
use mongres.Policy.{WriteOperation}
use mongres.Policy.Candidates.{predicate_references_path, predicates_reference_path}
use mongres.Policy.Apply.{write_plan_references_path}
use mongres.Policy.Detect.{
  collect_predicate_paths, collect_predicates_paths, written_paths, detect_write_ambiguities,
  write_operation,
}
use mongres.Policy.Detect.Clear.{PathIsClear, detect_paths-clear, clear-detect_paths}

filter_mentions : StatementPlan → FieldPath → Bool
filter_mentions (update plan) path = predicate_references_path plan.filter path
filter_mentions (delete plan) path = predicate_references_path plan.filter path
filter_mentions plan path = false

-- A write plan sets the path, or its filter tests it.
unfoldable pub mentions : StatementPlan → FieldPath → Bool
unfolding filter_mentions
mentions plan path = write_plan_references_path plan path || filter_mentions plan path

sym_or :
    (target path : FieldPath) (paths : List FieldPath)
    → (target =ₖ path || contains target paths) ≡ (path =ₖ target || contains target paths)
sym_or target path paths = ground (arith, =ₖ_sym target path)

mutual
  unfolding collect_predicate_paths predicate_references_path

  contains-collect :
      (p : Predicate) (target : FieldPath) (paths : List FieldPath)
      → contains target (collect_predicate_paths p paths)
        ≡ (predicate_references_path p target || contains target paths)
  contains-collect (compare path op v) target paths =
      contains-add target path paths ∙ sym_or target path paths
  contains-collect (in_list path vs negated) target paths =
      contains-add target path paths ∙ sym_or target path paths
  contains-collect (is_null path negated) target paths =
      contains-add target path paths ∙ sym_or target path paths
  contains-collect (and ps) target paths = contains-collect_all ps target paths
  contains-collect (or ps) target paths = contains-collect_all ps target paths

  contains-collect_all :
      (ps : Predicates) (target : FieldPath) (paths : List FieldPath)
      → contains target (collect_predicates_paths ps paths)
        ≡ (predicates_reference_path ps target || contains target paths)
  contains-collect_all nil target paths = refl
  contains-collect_all (cons p ps) target paths = ground (
    arith,
    contains-collect_all ps target (collect_predicate_paths p paths),
    contains-collect p target paths,
  )

any-contains :
    (paths : List FieldPath) (target : FieldPath)
    → any (λ path. path =ₖ target) paths ≡ contains target paths
unfolding contains
any-contains [] target = refl
any-contains (p ∷ ps) target = ground (arith, =ₖ_sym target p, any-contains ps target)

any-assignments :
    (list : List AssignmentPlan) (target : FieldPath)
    → any (λ (a : AssignmentPlan). a.path =ₖ target) list ≡ contains target (map (λ a. a.path) list)
unfolding contains
any-assignments [] target = refl
any-assignments (a ∷ rest) target =
    ground (arith, =ₖ_sym target a.path, any-assignments rest target)

contains-extend_nil :
    (paths : List FieldPath) (target : FieldPath)
    → contains target (extend [] paths) ≡ contains target paths
contains-extend_nil paths target = contains-extend target [] paths ∙ (unfold contains in refl)

contains-nil : (target : FieldPath) → contains target [] ≡ false
contains-nil target = unfold contains in refl

contains-written_paths :
    (plan : StatementPlan) (paths : List FieldPath)
    → written_paths plan ≡ ok paths
    → (target : FieldPath) → contains target paths ≡ mentions plan target
unfolding written_paths mentions write_plan_references_path
contains-written_paths (insert plan) paths e target =
    ground (arith, contains-extend_nil plan.columns target, any-contains plan.columns target)
contains-written_paths (update plan) paths e target =
    let set = map (λ (a : AssignmentPlan). a.path) plan.assignments in
    ground (
      arith,
      contains-collect plan.filter target (extend [] set),
      contains-extend_nil set target,
      any-assignments plan.assignments target,
    )
contains-written_paths (delete plan) paths e target =
    ground (arith, contains-collect plan.filter target [], contains-nil target)
contains-written_paths (select plan) paths e target = cc

written_paths_total :
    (plan : StatementPlan) (operation : WriteOperation)
    → write_operation plan ≡ ok operation
    → (paths : List FieldPath) × (written_paths plan ≡ ok paths)
unfolding written_paths write_operation
written_paths_total (insert plan) operation e = (_, refl)
written_paths_total (update plan) operation e = (_, refl)
written_paths_total (delete plan) operation e = (_, refl)
written_paths_total (select plan) operation e = cc

-- For a write plan, detection finds no ambiguity exactly if every path that the plan sets or filters
-- by is a field of the profile that all sampled documents have, with at most one shape, at most one
-- type besides null (none, if it was only ever null) and a display name of its own.
pub detect_write_ambiguities-clear_iff :
    (plan : StatementPlan) (schema : SchemaProfile) (operation : WriteOperation)
    → write_operation plan ≡ ok operation
    → (detect_write_ambiguities plan schema ≡ ok [])
      ↔ ((path : FieldPath) → mentions plan path ≡ true → PathIsClear schema path)
unfolding detect_write_ambiguities
detect_write_ambiguities-clear_iff plan schema operation w =
    let (paths, here) = written_paths_total plan operation w in
    (
      λ e path m.
          All-contains (PathIsClear schema) paths (detect_paths-clear schema paths (rw here at e))
            path (contains-written_paths plan paths here path ∙ m),
      λ h. rw here (
          clear-detect_paths schema paths (
            All-of_contains (PathIsClear schema) paths
              (λ path c. h path (sym (contains-written_paths plan paths here path) ∙ c)))),
    )
