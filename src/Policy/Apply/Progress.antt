-- ===== src/Policy/Apply/Progress.antt =====
-- When applying an allowed candidate succeeds.
use mongres.Prelude.{
  true, Option, none, some, ◌≡◌, ◌≢◌, inl, inr, refl, sym, ◌∙◌, arith, Option-cases, Bool-cases,
}
use mongres.Order.Derived.{list_cmp}
use mongres.BTree.{contains}
use mongres.Text.Decimal.{to_string}
use mongres.Common.{ok, ErrorKind, Fails}
use mongres.Schema.{FieldPath}
use mongres.Plan.{SqlValue, StatementPlan, DeletePlan, delete}
use mongres.Policy.{
  WriteAmbiguity, ResolutionCandidate, keep_string, keep_integer, candidate_ord,
  format_integer_as_string, use_nested_path, reject, ValidatedResolution,
}
use mongres.Policy.Candidates.{
  parse_integer_losslessly, mixed_type_assignment_value, is_mixed_scalar, nested_path_is_safe,
  allowed_candidates,
}
use mongres.Policy.Candidates.Allowed.{contains-allowed_candidates, permits}
use mongres.Policy.Apply.{
  apply_candidate, apply_resolution, target_value, mixed_type_ambiguity, write_plan_references_path,
}
use mongres.Policy.Apply.Outcome.{target_value-Eligible, retyped, retyped_as_string, with_value}

is_mixed_scalar-mixed_type_ambiguity :
    (a : WriteAmbiguity)
    → is_mixed_scalar a ≡ true
    → is_mixed_scalar (mixed_type_ambiguity a.field_path) ≡ true
unfolding is_mixed_scalar list_cmp
is_mixed_scalar-mixed_type_ambiguity a h = ground arith

-- The evidence that `apply_resolution` makes up for a path stands for the evidence of the allowlist.
target_value-eq :
    (plan : StatementPlan) (a : WriteAmbiguity) (v : SqlValue)
    → mixed_type_assignment_value plan a ≡ some v
    → target_value plan a.field_path ≡ some v
unfolding mixed_type_assignment_value
target_value-eq plan a v e = elim (Bool-cases (is_mixed_scalar a)) [
  | inl mixed ↦ ground (arith, mixed, is_mixed_scalar-mixed_type_ambiguity a mixed)
  | inr other ↦ absurd (ground (arith, other))
]

module _ (plan : StatementPlan) (a : WriteAmbiguity) where
  abbrev Applies : ResolutionCandidate → Type 0
  Applies c = (out : StatementPlan) × (apply_candidate plan a.field_path c ≡ ok out)

  permitted :
      (c : ResolutionCandidate) (o : Option SqlValue)
      → mixed_type_assignment_value plan a ≡ o
      → permits (nested_path_is_safe a) o c ≡ true
      → c ≢ reject
      → (c ≡ use_nested_path → write_plan_references_path plan a.field_path ≡ true)
      → Applies c
  unfolding apply_candidate nested_path_is_safe
  permitted reject o e h live refs = absurd (live refl)
  permitted use_nested_path o e h live refs = (plan, ground (arith, refs refl))
  permitted keep_string (some (SqlValue.string s)) e h live refs =
      (plan, rw (target_value-eq plan a (SqlValue.string s) e))
  permitted keep_integer (some (SqlValue.integer n)) e h live refs =
      (plan, rw (target_value-eq plan a (SqlValue.integer n) e))
  permitted format_integer_as_string (some (SqlValue.integer n)) e h live refs =
      let found = target_value-eq plan a (SqlValue.integer n) e in
      let el = target_value-Eligible plan a.field_path (SqlValue.integer n) found in
      (
        with_value plan a.field_path el.body (SqlValue.string (to_string n)),
        rw found (retyped_as_string plan a.field_path n el),
      )
  permitted ResolutionCandidate.parse_integer_losslessly (some (SqlValue.string s)) e h live refs =
      let found = target_value-eq plan a (SqlValue.string s) e in
      let el = target_value-Eligible plan a.field_path (SqlValue.string s) found in
      elim (Option-cases (parse_integer_losslessly s)) [
        | inl other ↦ absurd (ground (arith, other))
        | inr (n, canonical) ↦ (
          with_value plan a.field_path el.body (SqlValue.integer n),
          rw (found, canonical) (retyped plan a.field_path s n el),
        )
      ]
  permitted c o e h live refs = absurd (ground arith)

-- An allowed candidate other than rejection applies, if the nested path, where that is the candidate,
-- is a path that the plan writes.
pub apply_resolution_total :
    (plan : StatementPlan) (a : WriteAmbiguity) (c : ResolutionCandidate)
    → contains c (allowed_candidates plan a) ≡ true
    → c ≢ reject
    → (c ≡ use_nested_path → write_plan_references_path plan a.field_path ≡ true)
    → (out : StatementPlan) × (apply_resolution plan
          (record { field_path = a.field_path; candidate = c })
        ≡ ok out)
unfolding apply_resolution
apply_resolution_total plan a c allowed live refs =
    permitted plan a c (mixed_type_assignment_value plan a) refl
      (sym (contains-allowed_candidates plan a c) ∙ allowed) live refs

target_value-delete :
    (plan : DeletePlan) (path : FieldPath) → target_value (delete plan) path ≡ none
unfolding mixed_type_assignment_value
target_value-delete plan path = ground arith

-- Applying any resolution to a DELETE is an `AmbiguousWrite` error.
pub apply_resolution-delete :
    (plan : DeletePlan) (resolution : ValidatedResolution)
    → Fails (apply_resolution (delete plan) resolution) ErrorKind.ambiguous_write
unfolding apply_resolution
apply_resolution-delete plan r = by_candidate r.field_path r.candidate
  where
    by_candidate :
        (path : FieldPath) (c : ResolutionCandidate)
        → Fails (apply_candidate (delete plan) path c) ErrorKind.ambiguous_write
    by_candidate path reject = unfold apply_candidate in refl
    by_candidate path use_nested_path = unfold apply_candidate in (ground arith)
    by_candidate path keep_string =
        unfold apply_candidate in (ground (arith, target_value-delete plan path))
    by_candidate path keep_integer =
        unfold apply_candidate in (ground (arith, target_value-delete plan path))
    by_candidate path format_integer_as_string =
        unfold apply_candidate in (ground (arith, target_value-delete plan path))
    by_candidate path ResolutionCandidate.parse_integer_losslessly =
        unfold apply_candidate in (ground (arith, target_value-delete plan path))
