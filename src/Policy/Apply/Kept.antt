-- ===== src/Policy/Apply/Kept.antt =====
-- What a resolution leaves of the plan.
use mongres.Prelude.{
  String, Bool, List, [], ◌∷◌, ◌≡◌, ◌≢◌, refl, arith, Bool-cases, inl, inr, not, ◌||◌,
}
use mongres.Order.{◌=ₖ◌}
use mongres.Order.Derived.{list_ord}
use mongres.Order.Text.{text_ord}
use mongres.Prelude.Int.{ℤ}
use mongres.Text.Decimal.{to_string}
use mongres.Common.{ok}
use mongres.Common.Results.{>>=-eq-ok, ok_injective, ok_or}
use mongres.Schema.{FieldPath}
use mongres.Plan.{SqlValue, AssignmentPlan, UpdatePlan, StatementPlan, update, collection_from_plan}
use mongres.Policy.{
  ResolutionCandidate, keep_string, keep_integer, format_integer_as_string, use_nested_path, reject,
  ValidatedResolution,
}
use mongres.Policy.Candidates.{parse_integer_losslessly}
use mongres.Policy.Detect.{write_operation}
use mongres.Policy.Apply.{
  is_string, is_integer, retype, retype_update_assignment, retype_update_assignment_as_string,
  target_value, string_value, integer_value, apply_candidate, apply_resolution,
}

-- The same statement on the same collection.
abbrev pub Keeps : StatementPlan → StatementPlan → Type 0
Keeps plan out =
    (collection_from_plan out ≡ collection_from_plan plan)
    × (write_operation out ≡ write_operation plan)

Keeps-same : (plan out : StatementPlan) → plan ≡ out → Keeps plan out
Keeps-same plan out same = rw (← same) (refl, refl)

retype-Keeps :
    (test : SqlValue → Bool) (v : SqlValue) (candidate : String) (plan : UpdatePlan)
    (target : FieldPath) (assignments : List AssignmentPlan) (out : StatementPlan)
    → retype test v candidate plan target assignments ≡ ok out
    → Keeps (update plan) out
unfolding collection_from_plan write_operation
retype-Keeps test v candidate plan target [] out h = cc
retype-Keeps test v candidate plan target (a ∷ []) out h =
    elim (Bool-cases (not (a.path =ₖ target) || not (test a.value))) [
      | inl refused ↦ absurd (ground (arith, refused))
      | inr fits ↦
          let same : update (record plan { assignments = record { path = a.path; value = v } ∷ [] })
              ≡ out =
            ok_injective (rw fits at h) in
          rw (← same) (refl, refl)
    ]
retype-Keeps test v candidate plan target (a ∷ b ∷ more) out h = cc

retype_update_assignment-Keeps :
    (plan : StatementPlan) (target : FieldPath) (n : ℤ) (out : StatementPlan)
    → retype_update_assignment plan target n ≡ ok out
    → Keeps plan out
unfolding retype_update_assignment
retype_update_assignment-Keeps (update plan) target n out h =
    retype-Keeps is_string (SqlValue.integer n) "integer conversion" plan target plan.assignments
      out h
retype_update_assignment-Keeps plan target n out h = absurd (ground arith)

retype_as_string-Keeps :
    (plan : StatementPlan) (target : FieldPath) (n : ℤ) (out : StatementPlan)
    → retype_update_assignment_as_string plan target n ≡ ok out
    → Keeps plan out
unfolding retype_update_assignment_as_string
retype_as_string-Keeps (update plan) target n out h =
    retype-Keeps is_integer (SqlValue.string (to_string n)) "integer string formatting" plan target
      plan.assignments out h
retype_as_string-Keeps plan target n out h = absurd (ground arith)

apply_candidate-Keeps :
    (plan : StatementPlan) (path : FieldPath) (c : ResolutionCandidate) (out : StatementPlan)
    → apply_candidate plan path c ≡ ok out
    → (c ≢ reject) × Keeps plan out
unfolding apply_candidate
apply_candidate-Keeps plan path reject out h = cc
apply_candidate-Keeps plan path use_nested_path out h =
    ((λ e. cc), Keeps-same plan out (ground arith))
apply_candidate-Keeps plan path keep_string out h =
    let (v, _, h1) = >>=-eq-ok (ok_or (string_value (target_value plan path)) _) _ h in
    ((λ e. cc), Keeps-same plan out (ok_injective h1))
apply_candidate-Keeps plan path ResolutionCandidate.parse_integer_losslessly out h =
    let (s, _, h1) = >>=-eq-ok (ok_or (string_value (target_value plan path)) _) _ h in
    let (n, _, h2) = >>=-eq-ok (ok_or (parse_integer_losslessly s) _) _ h1 in
    ((λ e. cc), retype_update_assignment-Keeps plan path n out h2)
apply_candidate-Keeps plan path keep_integer out h =
    let (v, _, h1) = >>=-eq-ok (ok_or (integer_value (target_value plan path)) _) _ h in
    ((λ e. cc), Keeps-same plan out (ok_injective h1))
apply_candidate-Keeps plan path format_integer_as_string out h =
    let (n, _, h1) = >>=-eq-ok (ok_or (integer_value (target_value plan path)) _) _ h in
    ((λ e. cc), retype_as_string-Keeps plan path n out h1)

-- A resolution that applies is not a rejection, and leaves the statement's kind and its collection.
pub apply_resolution-Keeps :
    (plan : StatementPlan) (resolution : ValidatedResolution) (out : StatementPlan)
    → apply_resolution plan resolution ≡ ok out
    → (resolution.candidate ≢ reject) × Keeps plan out
unfolding apply_resolution
apply_resolution-Keeps plan resolution out h =
    apply_candidate-Keeps plan resolution.field_path resolution.candidate out h
