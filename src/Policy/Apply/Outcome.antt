-- ===== src/Policy/Apply/Outcome.antt =====
-- What a validated resolution makes of a plan.
use mongres.Prelude.{
  String, false, List, [], ◌∷◌, Option, none, some, ◌≡◌, ◌⊎◌, inl, inr, refl, sym, ◌∙◌, arith,
}
use mongres.Prelude.Int.{ℤ, InI64}
use mongres.Order.{=ₖ_sound, =ₖ_refl}
use mongres.Order.Derived.{list_ord}
use mongres.Order.Text.{text_ord}
use mongres.Text.Decimal.{to_string}
use mongres.Common.{ok, ProxyError}
use mongres.Common.Results.{ok_or, >>=-eq-ok, ok_injective}
use mongres.Schema.{FieldPath}
use mongres.Plan.{
  SqlValue, AssignmentPlan, UpdatePlan, StatementPlan, select, insert, update, delete,
}
use mongres.Policy.{
  ResolutionCandidate, keep_string, keep_integer, candidate_ord, format_integer_as_string,
  use_nested_path, reject, ValidatedResolution,
}
use mongres.Policy.Candidates.{
  parse_integer_losslessly, mixed_type_assignment_value, predicate_references_path, update_value,
  sole_value,
}
use mongres.Policy.Candidates.Allowed.{parse_integer_losslessly_iff}
use mongres.Policy.Apply.{
  apply_candidate, apply_resolution, target_value, string_value, integer_value,
  retype_update_assignment, retype_update_assignment_as_string,
}

-- A plan whose only assignment is to the target path, which the filter does not mention.
pub record Eligible (plan : StatementPlan) (path : FieldPath) (v : SqlValue) : Type 0 where
  pub body : UpdatePlan
  pub assignment : AssignmentPlan
  pub is_update : plan ≡ update body
  pub sole : body.assignments ≡ assignment ∷ []
  pub target : assignment.path ≡ path
  pub holds : assignment.value ≡ v
  pub unfiltered : predicate_references_path body.filter path ≡ false

sole_value-eq :
    (list : List AssignmentPlan) (path : FieldPath) (v : SqlValue)
    → sole_value list path ≡ some v
    → (a : AssignmentPlan) × (list ≡ a ∷ []) × (a.path ≡ path) × (a.value ≡ v)
sole_value-eq [] path v e = cc
sole_value-eq (a ∷ []) path v e = (a, refl, ground (arith, =ₖ_sound a.path path), ground arith)
sole_value-eq (a ∷ b ∷ more) path v e = cc

update_value-Eligible :
    (plan : StatementPlan) (path : FieldPath) (v : SqlValue)
    → update_value plan path ≡ some v
    → Eligible plan path v
update_value-Eligible (update u) path v e =
    let unmentioned : predicate_references_path u.filter path ≡ false = ground arith in
    let (a, sole, target, holds) = sole_value-eq u.assignments path v (rw unmentioned at e) in
    record {
      body = u;
      assignment = a;
      is_update = refl;
      sole = sole;
      target = target;
      holds = holds;
      unfiltered = unmentioned;
    }
update_value-Eligible (select p) path v e = cc
update_value-Eligible (insert p) path v e = cc
update_value-Eligible (delete p) path v e = cc

pub target_value-Eligible :
    (plan : StatementPlan) (path : FieldPath) (v : SqlValue)
    → target_value plan path ≡ some v
    → Eligible plan path v
unfolding mixed_type_assignment_value
target_value-Eligible plan path v e = update_value-Eligible plan path v (ground arith)

-- The values `v` and `w` are one number, the one as a string and the other as an integer.
abbrev pub SameNumber : SqlValue → SqlValue → Type 0
SameNumber (SqlValue.string s) (SqlValue.integer n) = (s ≡ to_string n) × InI64 n
SameNumber (SqlValue.integer n) (SqlValue.string s) = s ≡ to_string n
SameNumber v w = ⊥

-- `out` is the update `plan` with one number written the other way, in its only assignment, which is
-- to `path`.
pub record Retagged (plan out : StatementPlan) (path : FieldPath) : Type 0 where
  pub body : UpdatePlan
  pub before : SqlValue
  pub after : SqlValue
  pub is_update : plan ≡ update body
  pub sole : body.assignments ≡ record { path = path; value = before } ∷ []
  pub result :
      out ≡ update (record body { assignments = record { path = path; value = after } ∷ [] })
  pub same_number : SameNumber before after
  pub unfiltered : predicate_references_path body.filter path ≡ false

string_value-eq :
    (o : Option SqlValue) (s : String) → string_value o ≡ some s → o ≡ some (SqlValue.string s)
string_value-eq (some (SqlValue.string t)) s e = ground arith
string_value-eq o s e = cc

integer_value-eq :
    (o : Option SqlValue) (n : ℤ) → integer_value o ≡ some n → o ≡ some (SqlValue.integer n)
integer_value-eq (some (SqlValue.integer m)) n e = ground arith
integer_value-eq o n e = cc

ok_or-eq-some : {A : Type 0} (o : Option A) (x : ProxyError) {a : A} → ok_or o x ≡ ok a → o ≡ some a
ok_or-eq-some none x e = cc
ok_or-eq-some (some b) x e = cc

-- On an eligible plan a value that passes the test is replaced.
module _ (plan : StatementPlan) (path : FieldPath) where
  abbrev pub with_value : UpdatePlan → SqlValue → StatementPlan
  with_value body v = update (record body { assignments = record { path = path; value = v } ∷ [] })

  pub retyped :
      (s : String) (n : ℤ) (el : Eligible plan path (SqlValue.string s))
      → retype_update_assignment plan path n ≡ ok (with_value el.body (SqlValue.integer n))
  unfolding retype_update_assignment
  retyped s n el = ground (arith, el.is_update, el.sole, el.target, el.holds, =ₖ_refl path)

  pub retyped_as_string :
      (n : ℤ) (el : Eligible plan path (SqlValue.integer n))
      → retype_update_assignment_as_string plan path n
        ≡ ok (with_value el.body (SqlValue.string (to_string n)))
  unfolding retype_update_assignment_as_string
  retyped_as_string n el = ground (arith, el.is_update, el.sole, el.target, el.holds, =ₖ_refl path)

  sole-eq :
      (v : SqlValue) (el : Eligible plan path v)
      → el.body.assignments ≡ record { path = path; value = v } ∷ []
  sole-eq v el = ground (arith, el.sole, el.target, el.holds)

  parsed-Retagged :
      (s : String) (n : ℤ) (out : StatementPlan) (el : Eligible plan path (SqlValue.string s))
      → parse_integer_losslessly s ≡ some n
      → retype_update_assignment plan path n ≡ ok out
      → Retagged plan out path
  parsed-Retagged s n out el parsed e = record {
    body = el.body;
    before = SqlValue.string s;
    after = SqlValue.integer n;
    is_update = el.is_update;
    sole = sole-eq (SqlValue.string s) el;
    result = ok_injective (sym e ∙ retyped s n el);
    same_number = (parse_integer_losslessly_iff s n).0 parsed;
    unfiltered = el.unfiltered;
  }

  formatted-Retagged :
      (n : ℤ) (out : StatementPlan) (el : Eligible plan path (SqlValue.integer n))
      → retype_update_assignment_as_string plan path n ≡ ok out
      → Retagged plan out path
  formatted-Retagged n out el e = record {
    body = el.body;
    before = SqlValue.integer n;
    after = SqlValue.string (to_string n);
    is_update = el.is_update;
    sole = sole-eq (SqlValue.integer n) el;
    result = ok_injective (sym e ∙ retyped_as_string n el);
    same_number = refl;
    unfiltered = el.unfiltered;
  }

-- A plan that `apply_resolution` returns is the given plan, or differs from it in this alone, that
-- the number in the value of its only assignment, to the resolved path, is an integer in place of its
-- decimal string or the string in place of the integer. The filter does not mention the path then.
pub apply_resolution-Retagged :
    (plan out : StatementPlan) (resolution : ValidatedResolution)
    → apply_resolution plan resolution ≡ ok out
    → (out ≡ plan) ⊎ Retagged plan out resolution.field_path
unfolding apply_resolution
apply_resolution-Retagged plan out r e = by_candidate r.candidate e
  where
    by_candidate :
        (c : ResolutionCandidate)
        → apply_candidate plan r.field_path c ≡ ok out
        → (out ≡ plan) ⊎ Retagged plan out r.field_path
    by_candidate reject e = cc
    by_candidate use_nested_path e = inl (ground arith)
    by_candidate keep_string e =
        let (v, here, e') =
          >>=-eq-ok (ok_or (string_value (target_value plan r.field_path)) _) _ e in
        inl (sym (ok_injective e'))
    by_candidate keep_integer e =
        let (v, here, e') =
          >>=-eq-ok (ok_or (integer_value (target_value plan r.field_path)) _) _ e in
        inl (sym (ok_injective e'))
    by_candidate ResolutionCandidate.parse_integer_losslessly e =
        let (s, here, e') =
          >>=-eq-ok (ok_or (string_value (target_value plan r.field_path)) _) _ e in
        let (n, parsed, e'') = >>=-eq-ok (ok_or (parse_integer_losslessly s) _) _ e' in
        inr (
          parsed-Retagged plan r.field_path s n out
            (target_value-Eligible plan r.field_path (SqlValue.string s)
              (string_value-eq _ s (ok_or-eq-some _ _ here)))
            (ok_or-eq-some _ _ parsed) e'')
    by_candidate format_integer_as_string e =
        let (n, here, e') =
          >>=-eq-ok (ok_or (integer_value (target_value plan r.field_path)) _) _ e in
        inr (
          formatted-Retagged plan r.field_path n out
            (target_value-Eligible plan r.field_path (SqlValue.integer n)
              (integer_value-eq _ n (ok_or-eq-some _ _ here)))
            e')
