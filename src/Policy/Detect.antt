-- ===== src/Policy/Detect.antt =====
-- `detect_write_ambiguities` of crates/ambiguity-policy/src/lib.rs.
pub mod Clear
pub mod Mentioned
use mongres.Prelude.{
  ℕ, String, Bool, true, false, List, [], ◌∷◌, Option, none, some, length, ltb, map, if◌then◌else◌,
}
use mongres.Order.Derived.{list_ord}
use mongres.Order.Text.{text_ord}
use mongres.BTree.{add, extend}
use mongres.Common.{Result, ok, err, ◌>>=◌, ProxyError, proxy_error, ErrorKind}
use mongres.Common.Results.{ok_or}
use mongres.Schema.{FieldPath, FieldProfile, SchemaProfile, field}
use mongres.Plan.{
  Predicate, Predicates, compare, in_list, is_null, and, or, nil, cons, StatementPlan, select,
  insert, update, delete,
}
use mongres.TypePolicy.{non_null_types, not_present, invalid_input}
use mongres.Policy.{
  WriteAmbiguity, WriteOperation, AmbiguityKind, mixed_bson_types, mixed_shapes,
  dotted_path_collision, missing_from_sampled_documents, kind_ord,
}

-- `collect_predicate_paths`
unfoldable mutual
  pub collect_predicate_paths : Predicate → List FieldPath → List FieldPath
  collect_predicate_paths (compare path op value) paths = add path paths
  collect_predicate_paths (in_list path values negated) paths = add path paths
  collect_predicate_paths (is_null path negated) paths = add path paths
  collect_predicate_paths (and ps) paths = collect_predicates_paths ps paths
  collect_predicate_paths (or ps) paths = collect_predicates_paths ps paths

  pub collect_predicates_paths : Predicates → List FieldPath → List FieldPath
  collect_predicates_paths nil paths = paths
  collect_predicates_paths (cons p ps) paths =
      collect_predicates_paths ps (collect_predicate_paths p paths)

-- `kinds.insert(kind)` under a test
abbrev pub add_if : Bool → AmbiguityKind → List AmbiguityKind → List AmbiguityKind
add_if true kind kinds = add kind kinds
add_if false kind kinds = kinds

-- The tests of `ambiguity_for_path` in their order.
unfoldable pub ambiguity_kinds : FieldProfile → List AmbiguityKind
ambiguity_kinds f = add_if (ltb 0 f.missing_documents) missing_from_sampled_documents (
    add_if f.has_dotted_key_collision dotted_path_collision (
      add_if (ltb 1 (length f.observed_shapes)) mixed_shapes
        (add_if (ltb 1 (length (non_null_types f.observed_types))) mixed_bson_types [])))

abbrev pub ambiguity_from : FieldPath → FieldProfile → List AmbiguityKind → Option WriteAmbiguity
ambiguity_from path f [] = none
ambiguity_from path f (k ∷ ks) = some (record {
  field_path = path;
  kinds = k ∷ ks;
  observed_types = f.observed_types;
  observed_shapes = f.observed_shapes;
  missing_documents = f.missing_documents;
})

-- `ambiguity_for_path`
unfoldable pub ambiguity_for_path :
    FieldPath → SchemaProfile → Result ProxyError (Option WriteAmbiguity)
unfolding ambiguity_kinds
ambiguity_for_path path schema = do
  f ← ok_or (field schema path) (not_present path)
  ok (ambiguity_from path f (ambiguity_kinds f))

-- `filter_map(…transpose()).collect()`: the first error ends the loop.
unfoldable pub detect_paths :
    SchemaProfile → List FieldPath → Result ProxyError (List WriteAmbiguity)
detect_paths schema [] = ok []
detect_paths schema (path ∷ paths) = do
  found ← ambiguity_for_path path schema
  rest ← detect_paths schema paths
  ok (elim found [ none ↦ rest | some a ↦ a ∷ rest ])

-- The set of paths that a write plan touches.
unfoldable pub written_paths : StatementPlan → Result ProxyError (List FieldPath)
unfolding collect_predicate_paths
written_paths (insert plan) = ok (extend [] plan.columns)
written_paths (update plan) =
    ok (collect_predicate_paths plan.filter (extend [] (map (λ a. a.path) plan.assignments)))
written_paths (delete plan) = ok (collect_predicate_paths plan.filter [])
written_paths (select plan) =
    err (invalid_input "write ambiguity detection requires an INSERT, UPDATE, or DELETE plan")

-- `detect_write_ambiguities`
unfoldable pub detect_write_ambiguities :
    StatementPlan → SchemaProfile → Result ProxyError (List WriteAmbiguity)
unfolding written_paths detect_paths
detect_write_ambiguities plan schema = do paths ← written_paths plan; detect_paths schema paths

-- `write_operation`
unfoldable pub write_operation : StatementPlan → Result ProxyError WriteOperation
write_operation (insert plan) = ok WriteOperation.insert
write_operation (update plan) = ok WriteOperation.update
write_operation (delete plan) = ok WriteOperation.delete
write_operation (select plan) =
    err (invalid_input "resolver requests require an INSERT, UPDATE, or DELETE plan")
