-- ===== src/Sql/Lowering/Known.antt =====
-- The parts of a statement are lowered to known fields.
use mongres.Prelude.{
  String, Bool, true, false, not, List, [], ◌∷◌, Option, none, some, ◌≡◌, ◌≢◌, refl, ap, arith, All,
  length, ◌==◌,
}
use mongres.F64.{F64}
use mongres.Common.{ok, ◌>>=◌, ProxyError}
use mongres.Common.Results.{
  >>=-eq-ok, ok_injective, traverse, traverse-All, length-traverse, transpose, ok_or,
}
use mongres.Schema.{FieldPath, SchemaProfile}
use mongres.Plan.{
  SqlValue, Predicate, ProjectedField, Projection, AssignmentPlan, StatementPlan, select, insert,
  update, delete,
}
use mongres.Binding.{validate_row}
use mongres.Sql.Ast.{AssignmentTarget, SelectItem, Expr}
use mongres.Sql.Resolve.{parse_value, resolve_expression_field, resolve_field, parse_predicate}
use mongres.Sql.Resolve.Known.{
  PathIsKnown, PredicateIsKnown, resolve_expression_field-PathIsKnown, resolve_field-PathIsKnown,
  parse_predicate-PredicateIsKnown,
}
use mongres.Sql.Lowering.{
  reject_if, projected_field, parse_projection, parse_row, assign_to, required_filter,
}

abbrev ProjectionIsKnown : SchemaProfile → Projection → Type 0
ProjectionIsKnown schema Projection.all = Unit {0}
ProjectionIsKnown schema (Projection.fields fs) = All (λ f. PathIsKnown schema f.path) fs

abbrev pub FilterIsKnown : SchemaProfile → Option Predicate → Type 0
FilterIsKnown schema none = Unit {0}
FilterIsKnown schema (some p) = PredicateIsKnown schema p

-- The profile has every field that the plan reads, writes or tests.
abbrev pub PlanIsKnown : SchemaProfile → StatementPlan → Type 0
PlanIsKnown schema (select plan) =
    ProjectionIsKnown schema plan.projection × FilterIsKnown schema plan.filter
PlanIsKnown schema (insert plan) = All (PathIsKnown schema) plan.columns
PlanIsKnown schema (update plan) =
    All (λ a. PathIsKnown schema a.path) plan.assignments × PredicateIsKnown schema plan.filter
PlanIsKnown schema (delete plan) = PredicateIsKnown schema plan.filter

-- An insert has columns and rows, each row as many values as there are columns; an update has
-- assignments.
abbrev pub HasShape : StatementPlan → Type 0
HasShape (select plan) = Unit {0}
HasShape (insert plan) =
    (plan.columns ≢ []) × (plan.rows ≢ []) × All (λ row. length row ≡ length plan.columns) plan.rows
HasShape (update plan) = plan.assignments ≢ []
HasShape (delete plan) = Unit {0}

pub accepted :
    (test : Bool) (e : ProxyError) {u : Unit {0}} → reject_if test e ≡ ok u → test ≡ false
unfolding reject_if
accepted false e h = refl
accepted true e h = cc

module _ (schema : SchemaProfile) (collection : String) where
  projected_field-PathIsKnown :
      (item : SelectItem) (f : ProjectedField)
      → projected_field collection schema item ≡ ok f
      → PathIsKnown schema f.path
  unfolding projected_field
  projected_field-PathIsKnown (SelectItem.unnamed_expr e) f h =
      let (path, found, h') = >>=-eq-ok (resolve_expression_field e collection schema) _ h in
      let same : path ≡ f.path = ap (λ (g : ProjectedField). g.path) (ok_injective h') in
      rw (← same) (resolve_expression_field-PathIsKnown schema e collection path found)
  projected_field-PathIsKnown (SelectItem.expr_with_alias e alias) f h =
      let (path, found, h') = >>=-eq-ok (resolve_expression_field e collection schema) _ h in
      let same : path ≡ f.path = ap (λ (g : ProjectedField). g.path) (ok_injective h') in
      rw (← same) (resolve_expression_field-PathIsKnown schema e collection path found)
  projected_field-PathIsKnown item f h = absurd (ground arith)

  collected-ProjectionIsKnown :
      (items : List SelectItem) (p : Projection)
      → (do fs ← traverse (projected_field collection schema) items; ok (Projection.fields fs))
        ≡ ok p
      → ProjectionIsKnown schema p
  collected-ProjectionIsKnown items p h =
      let (fs, found, h') = >>=-eq-ok (traverse (projected_field collection schema) items) _ h in
      let same : Projection.fields fs ≡ p = ok_injective h' in
      rw (← same) (
        traverse-All (projected_field collection schema) (λ f. PathIsKnown schema f.path)
          projected_field-PathIsKnown items fs found)

  pub parse_projection-ProjectionIsKnown :
      (items : List SelectItem) (p : Projection)
      → parse_projection collection schema items ≡ ok p
      → ProjectionIsKnown schema p
  unfolding parse_projection
  parse_projection-ProjectionIsKnown (SelectItem.wildcard ∷ []) p h =
      let same : Projection.all ≡ p = ok_injective h in rw (← same) tt
  parse_projection-ProjectionIsKnown items p h = collected-ProjectionIsKnown items p h

  module _ (parse_f64 : String → Option F64) where
    pub FilterIsKnown-transpose :
        (selection : Option Expr) (filter : Option Predicate)
        → transpose (parse_predicate parse_f64 collection schema) selection ≡ ok filter
        → FilterIsKnown schema filter
    unfolding transpose
    FilterIsKnown-transpose none filter h =
        let same : none ≡ filter = ok_injective h in rw (← same) tt
    FilterIsKnown-transpose (some e) filter h =
        let (p, parsed, h') = >>=-eq-ok (parse_predicate parse_f64 collection schema e) _ h in
        let same : some p ≡ filter = ok_injective h' in
        rw (← same) (parse_predicate-PredicateIsKnown schema parse_f64 collection e p parsed)

    pub required_filter-PredicateIsKnown :
        (selection : Option Expr) (missing : ProxyError) (p : Predicate)
        → required_filter parse_f64 selection missing collection schema ≡ ok p
        → PredicateIsKnown schema p
    unfolding required_filter
    required_filter-PredicateIsKnown selection missing p h =
        let (e, given, h') = >>=-eq-ok (ok_or selection missing) _ h in
        parse_predicate-PredicateIsKnown schema parse_f64 collection e p h'

    pub assign_to-PathIsKnown :
        (target : AssignmentTarget) (e : Expr) (out : AssignmentPlan)
        → assign_to parse_f64 collection schema target e ≡ ok out
        → PathIsKnown schema out.path
    unfolding assign_to
    assign_to-PathIsKnown (AssignmentTarget.column_name target) e out h =
        let (path, found, h') = >>=-eq-ok (resolve_field target collection schema) _ h in
        let (v, parsed, h'') = >>=-eq-ok (parse_value parse_f64 e) _ h' in
        let same : path ≡ out.path = ap (λ (a : AssignmentPlan). a.path) (ok_injective h'') in
        rw (← same) (resolve_field-PathIsKnown schema target collection path found)
    assign_to-PathIsKnown AssignmentTarget.tuple e out h = cc

    pub parse_row_lem :
        (columns : List FieldPath) (row : List Expr) (values : List SqlValue)
        → parse_row parse_f64 columns schema row ≡ ok values
        → (length values ≡ length columns) × (validate_row schema columns values ≡ ok tt)
    unfolding parse_row
    parse_row_lem columns row values h =
        let test = not (length row == length columns) in
        let (u, fits, h') = >>=-eq-ok (reject_if test _) _ h in
        let (vs, parsed, h2) = >>=-eq-ok (traverse (parse_value parse_f64) row) _ h' in
        let (v, valid, h3) = >>=-eq-ok (validate_row schema columns vs) _ h2 in
        let same : vs ≡ values = ok_injective h3 in
        rw (← same) (
          ground
              (arith, length-traverse (parse_value parse_f64) row vs parsed, accepted test _ fits),
          valid,
        )
