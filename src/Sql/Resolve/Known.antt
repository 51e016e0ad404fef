-- ===== src/Sql/Resolve/Known.antt =====
-- Name resolution hands on known fields alone.
use mongres.Prelude.{
  String, true, false, List, [], ◌∷◌, Option, some, ◌≡◌, arith, Option-cases, inl, inr,
}
use mongres.F64.{F64}
use mongres.Common.{ok}
use mongres.Common.Results.{>>=-eq-ok, ok_injective, traverse}
use mongres.Schema.{FieldPath, FieldProfile, SchemaProfile, field, top_level}
use mongres.Plan
use mongres.Plan.{Predicate, Predicates, compare, in_list, is_null}
use mongres.Sql.Ast.{Ident, Expr, exprs, BinaryOperator}
use mongres.Sql.Resolve.{
  strip_collection, path_from, known_path, resolve_parts, resolve_field, resolve_expression_field,
  resolve_dotted_column, resolve_insert_column, parse_comparison_operator, parse_value,
  parse_comparison, parse_predicate,
}
use mongres.Text.{split_char}

-- The profile has the field.
abbrev pub PathIsKnown : SchemaProfile → FieldPath → Type 0
PathIsKnown schema path = (f : FieldProfile) × (field schema path ≡ some f)

-- The profile has every field that the predicate tests.
abbrev mutual
  pub PredicateIsKnown : SchemaProfile → Predicate → Type 0
  PredicateIsKnown schema (compare path op v) = PathIsKnown schema path
  PredicateIsKnown schema (in_list path vs negated) = PathIsKnown schema path
  PredicateIsKnown schema (is_null path negated) = PathIsKnown schema path
  PredicateIsKnown schema (Predicate.and ps) = PredicatesAreKnown schema ps
  PredicateIsKnown schema (Predicate.or ps) = PredicatesAreKnown schema ps

  pub PredicatesAreKnown : SchemaProfile → Predicates → Type 0
  PredicatesAreKnown schema Plan.nil = Unit {0}
  PredicatesAreKnown schema (Plan.cons p ps) =
      PredicateIsKnown schema p × PredicatesAreKnown schema ps

module _ (schema : SchemaProfile) where
  known_path-PathIsKnown :
      (path out : FieldPath) → known_path path schema ≡ ok out → PathIsKnown schema out
  known_path-PathIsKnown path out e = elim (Option-cases (field schema path)) [
    | inl missing ↦ absurd (ground (arith, missing))
    | inr (f, found) ↦ (f, rw (← ok_injective (rw found at e)) found)
  ]

  resolve_parts-PathIsKnown :
      (is : List Ident) (out : FieldPath)
      → resolve_parts is schema ≡ ok out
      → PathIsKnown schema out
  resolve_parts-PathIsKnown [] out e = cc
  resolve_parts-PathIsKnown (first ∷ rest) out e = known_path-PathIsKnown _ out e

  pub resolve_field-PathIsKnown :
      (is : List Ident) (collection : String) (out : FieldPath)
      → resolve_field is collection schema ≡ ok out
      → PathIsKnown schema out
  unfolding resolve_field
  resolve_field-PathIsKnown is collection out e =
      resolve_parts-PathIsKnown (strip_collection collection is) out e

  pub resolve_expression_field-PathIsKnown :
      (expr : Expr) (collection : String) (out : FieldPath)
      → resolve_expression_field expr collection schema ≡ ok out
      → PathIsKnown schema out
  unfolding resolve_expression_field
  resolve_expression_field-PathIsKnown (Expr.identifier i) collection out e =
      resolve_field-PathIsKnown (i ∷ []) collection out e
  resolve_expression_field-PathIsKnown (Expr.compound_identifier is) collection out e =
      resolve_field-PathIsKnown is collection out e
  resolve_expression_field-PathIsKnown expr collection out e = absurd (ground arith)

  resolve_dotted_column-PathIsKnown :
      (i : Ident) (pieces : List String) (collection : String) (out : FieldPath)
      → resolve_dotted_column i pieces collection schema ≡ ok out
      → PathIsKnown schema out
  unfolding resolve_dotted_column
  resolve_dotted_column-PathIsKnown i [] collection out e = cc
  resolve_dotted_column-PathIsKnown i (first ∷ rest) collection out e =
      elim (Option-cases (field schema (path_from (top_level first) rest))) [
        | inl missing ↦
            resolve_field-PathIsKnown (i ∷ []) collection out
              (rw (resolve_dotted_column, missing) at e)
        | inr (f, found) ↦ (f, rw (← ok_injective (rw (resolve_dotted_column, found) at e)) found)
      ]

  pub resolve_insert_column-PathIsKnown :
      (i : Ident) (collection : String) (out : FieldPath)
      → resolve_insert_column i collection schema ≡ ok out
      → PathIsKnown schema out
  unfolding resolve_insert_column
  resolve_insert_column-PathIsKnown i collection out e =
      elim (Option-cases (field schema (top_level i.value))) [
        | inl missing ↦
            resolve_dotted_column-PathIsKnown i (split_char b'.' i.value) collection out
              (rw (resolve_insert_column, missing) at e)
        | inr (f, found) ↦ (f, rw (← ok_injective (rw (resolve_insert_column, found) at e)) found)
      ]

  module _ (parse_f64 : String → Option F64) (collection : String) where
    parse_comparison-PredicateIsKnown :
        (left : Expr) (op : BinaryOperator) (right : Expr) (p : Predicate)
        → parse_comparison parse_f64 collection schema left op right ≡ ok p
        → PredicateIsKnown schema p
    unfolding parse_comparison
    parse_comparison-PredicateIsKnown left op right p e =
        let (path, found, e') = >>=-eq-ok (resolve_expression_field left collection schema) _ e in
        let (operator, known, e'') = >>=-eq-ok (parse_comparison_operator op) _ e' in
        let (v, parsed, e''') = >>=-eq-ok (parse_value parse_f64 right) _ e'' in
        let same : compare path operator v ≡ p = ok_injective e''' in
        rw (← same) (resolve_expression_field-PathIsKnown left collection path found)

    pub parse_predicate-PredicateIsKnown :
        (expr : Expr) (p : Predicate)
        → parse_predicate parse_f64 collection schema expr ≡ ok p
        → PredicateIsKnown schema p
    unfolding parse_predicate
    parse_predicate-PredicateIsKnown (Expr.nested expr) p e =
        parse_predicate-PredicateIsKnown expr p e
    parse_predicate-PredicateIsKnown (Expr.binary_op left BinaryOperator.and right) p e =
        let (l, first, e') = >>=-eq-ok (parse_predicate parse_f64 collection schema left) _ e in
        let (r, second, e'') = >>=-eq-ok (parse_predicate parse_f64 collection schema right) _ e' in
        let same : Predicate.and (Plan.cons l (Plan.cons r Plan.nil)) ≡ p = ok_injective e'' in
        rw (← same) (
          parse_predicate-PredicateIsKnown left l first,
          (parse_predicate-PredicateIsKnown right r second, tt),
        )
    parse_predicate-PredicateIsKnown (Expr.binary_op left BinaryOperator.or right) p e =
        let (l, first, e') = >>=-eq-ok (parse_predicate parse_f64 collection schema left) _ e in
        let (r, second, e'') = >>=-eq-ok (parse_predicate parse_f64 collection schema right) _ e' in
        let same : Predicate.or (Plan.cons l (Plan.cons r Plan.nil)) ≡ p = ok_injective e'' in
        rw (← same) (
          parse_predicate-PredicateIsKnown left l first,
          (parse_predicate-PredicateIsKnown right r second, tt),
        )
    parse_predicate-PredicateIsKnown (Expr.binary_op left op right) p e =
        parse_comparison-PredicateIsKnown left op right p e
    parse_predicate-PredicateIsKnown (Expr.in_list expr list negated) p e =
        let (path, found, e') = >>=-eq-ok (resolve_expression_field expr collection schema) _ e in
        let (vs, parsed, e'') = >>=-eq-ok (traverse (parse_value parse_f64) (exprs list)) _ e' in
        let same : in_list path vs negated ≡ p = ok_injective e'' in
        rw (← same) (resolve_expression_field-PathIsKnown expr collection path found)
    parse_predicate-PredicateIsKnown (Expr.is_null expr) p e =
        let (path, found, e') = >>=-eq-ok (resolve_expression_field expr collection schema) _ e in
        let same : is_null path false ≡ p = ok_injective e' in
        rw (← same) (resolve_expression_field-PathIsKnown expr collection path found)
    parse_predicate-PredicateIsKnown (Expr.is_not_null expr) p e =
        let (path, found, e') = >>=-eq-ok (resolve_expression_field expr collection schema) _ e in
        let same : is_null path true ≡ p = ok_injective e' in
        rw (← same) (resolve_expression_field-PathIsKnown expr collection path found)
    parse_predicate-PredicateIsKnown expr p e = absurd (ground arith)
