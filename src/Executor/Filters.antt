-- ===== src/Executor/Filters.antt =====
-- When a predicate becomes a filter document.
use mongres.Prelude.{
  String, true, false, List, [], ◌∷◌, ◌≡◌, refl, arith, All, ◌↔◌, if◌then◌else◌, map,
}
use mongres.Bson.{BsonApi}
use mongres.Common.{ok}
use mongres.Common.Results.{traverse, >>=-eq-ok}
use mongres.Schema.{FieldPath, is_literal_dotted_key, display_name}
use mongres.Plan.{SqlValue, Predicate, Predicates, compare, in_list, is_null, and, or, nil, cons}
use mongres.Binding.Closed.{IsClosed, AreClosed, IsBound}
use mongres.Executor.{
  mongo_field_name, bson_value, logical_document, predicate_document, predicate_documents,
  comparison, operator_field, single_field, null_check,
}

-- No path of the predicate is a literal dotted key, and no AND or OR is empty.
abbrev NonEmpty : Predicates → Type 0
NonEmpty nil = ⊥
NonEmpty (cons p ps) = Unit

unfoldable mutual
  pub IsExpressible : Predicate → Type 0
  IsExpressible (compare path op value) = is_literal_dotted_key path ≡ false
  IsExpressible (in_list path values negated) = is_literal_dotted_key path ≡ false
  IsExpressible (is_null path negated) = is_literal_dotted_key path ≡ false
  IsExpressible (and ps) = NonEmpty ps × AllExpressible ps
  IsExpressible (or ps) = NonEmpty ps × AllExpressible ps

  pub AllExpressible : Predicates → Type 0
  AllExpressible nil = Unit
  AllExpressible (cons p ps) = IsExpressible p × AllExpressible ps

mongo_field_name_total :
    (path : FieldPath)
    → is_literal_dotted_key path ≡ false
    → mongo_field_name path ≡ ok (display_name path)
unfolding mongo_field_name
mongo_field_name_total path h = ground (arith, h)

pub mongo_field_name-ok :
    (path : FieldPath) (name : String)
    → mongo_field_name path ≡ ok name
    → is_literal_dotted_key path ≡ false
unfolding mongo_field_name
mongo_field_name-ok path name h = ground (arith, is_literal_dotted_key path)

module _ (api : BsonApi) where
  open api use {Bson, Document}

  pub bson_value_total : (v : SqlValue) → IsBound v → (b : Bson) × (bson_value api v ≡ ok b)
  unfolding bson_value
  bson_value_total SqlValue.null h = (api.null, refl)
  bson_value_total (SqlValue.boolean b) h = (api.boolean b, refl)
  bson_value_total (SqlValue.integer n) h = (api.int64 n, refl)
  bson_value_total (SqlValue.floating_point x) h = (api.double x, refl)
  bson_value_total (SqlValue.string s) h = (api.string s, refl)
  bson_value_total (SqlValue.placeholder s) h = absurd (ground arith)

  pub bson_value-IsBound : (v : SqlValue) (b : Bson) → bson_value api v ≡ ok b → IsBound v
  unfolding bson_value
  bson_value-IsBound SqlValue.null b e = refl
  bson_value-IsBound (SqlValue.boolean x) b e = refl
  bson_value-IsBound (SqlValue.integer n) b e = refl
  bson_value-IsBound (SqlValue.floating_point x) b e = refl
  bson_value-IsBound (SqlValue.string s) b e = refl
  bson_value-IsBound (SqlValue.placeholder s) b e = absurd (ground arith)

  bson_values_total :
      (vs : List SqlValue)
      → All IsBound vs
      → (bs : List Bson) × (traverse (bson_value api) vs ≡ ok bs)
  unfolding traverse
  bson_values_total [] h = ([], refl)
  bson_values_total (v ∷ vs) (p, h) =
      let (b, here) = bson_value_total v p in
      let (bs, there) = bson_values_total vs h in (b ∷ bs, rw (here, there) refl)

  bson_values-IsBound :
      (vs : List SqlValue) (bs : List Bson) → traverse (bson_value api) vs ≡ ok bs → All IsBound vs
  unfolding traverse
  bson_values-IsBound [] bs e = tt
  bson_values-IsBound (v ∷ vs) bs e =
      let (b, here, e') = >>=-eq-ok (bson_value api v) _ e in
      let (bs', there, _) = >>=-eq-ok (traverse (bson_value api) vs) _ e' in
      (bson_value-IsBound v b here, bson_values-IsBound vs bs' there)

  mutual
    unfolding predicate_document IsExpressible

    -- A predicate with no placeholder that is expressible has a filter document.
    predicate_document_total :
        (p : Predicate)
        → IsClosed p
        → IsExpressible p
        → (d : Document) × (predicate_document api p ≡ ok d)
    predicate_document_total (compare path op v) h plain =
        let (b, value) = bson_value_total v h in
        (
          comparison api op (display_name path) b,
          rw (mongo_field_name_total path plain, value) refl,
        )
    predicate_document_total (in_list path vs negated) h plain =
        let (bs, values) = bson_values_total vs h in
        (
          operator_field api (display_name path) (if negated then "$nin" else "$in") (api.array bs),
          rw (mongo_field_name_total path plain, values) refl,
        )
    predicate_document_total (is_null path negated) h plain =
        let name = display_name path in
        let exists = operator_field api name "$exists" (api.boolean true) in
        let null_or_not = null_check api negated name in
        (
          single_field api "$and" (api.array (api.document null_or_not ∷ api.document exists ∷ [])),
          rw (mongo_field_name_total path plain) refl,
        )
    predicate_document_total (and nil) h (k, _) = absurd k
    predicate_document_total (and (cons p ps)) (h, hs) (_, (k, ks)) =
        let (d, here) = predicate_document_total p h k in
        let (ds, there) = predicate_documents_total ps hs ks in
        (single_field api "$and" (api.array (map api.document (d ∷ ds))), rw (here, there) refl)
    predicate_document_total (or nil) h (k, _) = absurd k
    predicate_document_total (or (cons p ps)) (h, hs) (_, (k, ks)) =
        let (d, here) = predicate_document_total p h k in
        let (ds, there) = predicate_documents_total ps hs ks in
        (single_field api "$or" (api.array (map api.document (d ∷ ds))), rw (here, there) refl)

    predicate_documents_total :
        (ps : Predicates)
        → AreClosed ps
        → AllExpressible ps
        → (ds : List Document) × (predicate_documents api ps ≡ ok ds)
    predicate_documents_total nil h k = ([], refl)
    predicate_documents_total (cons p ps) (h, hs) (k, ks) =
        let (d, here) = predicate_document_total p h k in
        let (ds, there) = predicate_documents_total ps hs ks in (d ∷ ds, rw (here, there) refl)

  logical_document-NonEmpty :
      (operator : String) (ps : Predicates) (ds : List Document) (d : Document)
      → predicate_documents api ps ≡ ok ds
      → logical_document api operator ds ≡ ok d
      → NonEmpty ps
  unfolding predicate_document
  logical_document-NonEmpty operator nil ds d e e' = ground arith
  logical_document-NonEmpty operator (cons p ps) ds d e e' = tt

  mutual
    unfolding predicate_document IsExpressible

    -- Only such predicates have one.
    predicate_document-ok :
        (p : Predicate) (d : Document)
        → predicate_document api p ≡ ok d
        → IsClosed p × IsExpressible p
    predicate_document-ok (compare path op v) d e =
        let (name, plain, e') = >>=-eq-ok (mongo_field_name path) _ e in
        let (b, value, _) = >>=-eq-ok (bson_value api v) _ e' in
        (bson_value-IsBound v b value, mongo_field_name-ok path name plain)
    predicate_document-ok (in_list path vs negated) d e =
        let (name, plain, e') = >>=-eq-ok (mongo_field_name path) _ e in
        let (bs, values, _) = >>=-eq-ok (traverse (bson_value api) vs) _ e' in
        (bson_values-IsBound vs bs values, mongo_field_name-ok path name plain)
    predicate_document-ok (is_null path negated) d e =
        let (name, plain, _) = >>=-eq-ok (mongo_field_name path) _ e in
        (tt, mongo_field_name-ok path name plain)
    predicate_document-ok (and ps) d e =
        let (ds, documents, e') = >>=-eq-ok (predicate_documents api ps) _ e in
        let (closed, expressible) = predicate_documents-ok ps ds documents in
        (closed, (logical_document-NonEmpty "$and" ps ds d documents e', expressible))
    predicate_document-ok (or ps) d e =
        let (ds, documents, e') = >>=-eq-ok (predicate_documents api ps) _ e in
        let (closed, expressible) = predicate_documents-ok ps ds documents in
        (closed, (logical_document-NonEmpty "$or" ps ds d documents e', expressible))

    predicate_documents-ok :
        (ps : Predicates) (ds : List Document)
        → predicate_documents api ps ≡ ok ds
        → AreClosed ps × AllExpressible ps
    predicate_documents-ok nil ds e = (tt, tt)
    predicate_documents-ok (cons p ps) ds e =
        let (d, here, e') = >>=-eq-ok (predicate_document api p) _ e in
        let (ds', there, _) = >>=-eq-ok (predicate_documents api ps) _ e' in
        let (closed, expressible) = predicate_document-ok p d here in
        let (closeds, expressibles) = predicate_documents-ok ps ds' there in
        ((closed, closeds), (expressible, expressibles))

  -- A predicate has a filter document exactly if it holds no placeholder, none of its paths is a
  -- literal dotted key, and no AND or OR of it is empty.
  pub predicate_document_iff :
      (p : Predicate)
      → ((d : Document) × (predicate_document api p ≡ ok d)) ↔ (IsClosed p × IsExpressible p)
  predicate_document_iff p = (
    λ (d, e). predicate_document-ok p d e,
    λ (closed, expressible). predicate_document_total p closed expressible,
  )
