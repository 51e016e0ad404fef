-- ===== src/Executor/Insert/ReadBack.antt =====
-- The document of an INSERT row, read back.
use mongres.Prelude.{
  String, false, List, [], ◌∷◌, none, some, ◌≡◌, arith, Bool-cases, inl, inr, length, ◌==◌,
}
use mongres.Bson.{BsonApi}
use mongres.Common.{ok, ProxyError}
use mongres.Common.Results.{>>=-eq-ok, ok_injective}
use mongres.Schema.{FieldPath, is_literal_dotted_key, segments}
use mongres.Plan.{SqlValue}
use mongres.Executor.{bson_value}
use mongres.Executor.Insert.{insert_nested_value, insert_columns, build_insert_document}
use mongres.Executor.Insert.Nested.{find_path, find_path-insert_nested_value, find_path_preserved}

module _ (api : BsonApi) where
  open api use {Bson, Document}

  bson_value-scalar : (v : SqlValue) (b : Bson) → bson_value api v ≡ ok b → api.as_document b ≡ none
  unfolding bson_value
  bson_value-scalar SqlValue.null b e = rw (← ok_injective e) api.as_document-null
  bson_value-scalar (SqlValue.boolean x) b e = rw (← ok_injective e) (api.as_document-boolean x)
  bson_value-scalar (SqlValue.integer n) b e = rw (← ok_injective e) (api.as_document-int64 n)
  bson_value-scalar (SqlValue.floating_point x) b e =
      rw (← ok_injective e) (api.as_document-double x)
  bson_value-scalar (SqlValue.string s) b e = rw (← ok_injective e) (api.as_document-string s)
  bson_value-scalar (SqlValue.placeholder s) b e = cc

  -- The document holds, at the path of each column, the value of the row in BSON, and no such path
  -- is a literal dotted key.
  unfoldable pub ReadsBack : Document → List FieldPath → List SqlValue → Type 0
  ReadsBack d [] row = Unit
  ReadsBack d (path ∷ columns) [] = Unit
  ReadsBack d (path ∷ columns) (value ∷ row) =
      (is_literal_dotted_key path ≡ false)
      × ((b : Bson) × (bson_value api value ≡ ok b) × (find_path api d (segments path) ≡ some b))
      × ReadsBack d columns row

  insert_columns-ok :
      (path : FieldPath) (columns : List FieldPath) (value : SqlValue) (row : List SqlValue)
      (d d' : Document)
      → insert_columns api d (path ∷ columns) (value ∷ row) ≡ ok d'
      → (is_literal_dotted_key path ≡ false)
        × (b : Bson) × (bson_value api value ≡ ok b)
        × (d1 : Document) × (insert_nested_value api d (segments path) b ≡ ok d1)
        × (insert_columns api d1 columns row ≡ ok d')
  unfolding insert_columns
  insert_columns-ok path columns value row d d' e = elim (Bool-cases (is_literal_dotted_key path)) [
    | inl dotted ↦ ground (arith, dotted)
    | inr plain ↦
        let (b, converted, e') = >>=-eq-ok (bson_value api value) _ (rw plain at e) in
        let (d1, placed, rest) = >>=-eq-ok (insert_nested_value api d (segments path) b) _ e' in
        (plain, b, converted, d1, placed, rest)
  ]

  insert_columns-preserves :
      (columns : List FieldPath) (row : List SqlValue) (d d' : Document) (other : List String)
      (w : Bson)
      → insert_columns api d columns row ≡ ok d'
      → find_path api d other ≡ some w
      → api.as_document w ≡ none
      → find_path api d' other ≡ some w
  insert_columns-preserves [] row d d' other w e found scalar =
      rw (← ok_injective {E = ProxyError} {a = d} {b = d'} (unfold insert_columns in e)) found
  insert_columns-preserves (path ∷ columns) [] d d' other w e found scalar =
      rw (← ok_injective {E = ProxyError} {a = d} {b = d'} (unfold insert_columns in e)) found
  insert_columns-preserves (path ∷ columns) (value ∷ row) d d' other w e found scalar =
      let (plain, b, converted, d1, placed, rest) =
        insert_columns-ok path columns value row d d' e in
      insert_columns-preserves columns row d1 d' other w rest
        (find_path_preserved api (segments path) other d d1 b w placed found scalar) scalar

  insert_columns-ReadsBack :
      (columns : List FieldPath) (row : List SqlValue) (d d' : Document)
      → insert_columns api d columns row ≡ ok d'
      → ReadsBack d' columns row
  unfolding ReadsBack
  insert_columns-ReadsBack [] row d d' e = tt
  insert_columns-ReadsBack (path ∷ columns) [] d d' e = tt
  insert_columns-ReadsBack (path ∷ columns) (value ∷ row) d d' e =
      let (plain, b, converted, d1, placed, rest) =
        insert_columns-ok path columns value row d d' e in
      let found = find_path-insert_nested_value api (segments path) d d1 b placed in
      let scalar = bson_value-scalar value b converted in
      (
        plain,
        (
          b,
          converted,
          insert_columns-preserves columns row d1 d' (segments path) b rest found scalar,
        ),
        insert_columns-ReadsBack columns row d1 d' rest,
      )

  -- If `build_insert_document` returns a document, the row has one value for each column, and the
  -- document holds each value at the path of its column; no path is a literal dotted key.
  pub build_insert_document-ReadsBack :
      (columns : List FieldPath) (row : List SqlValue) (d : Document)
      → build_insert_document api columns row ≡ ok d
      → (length columns ≡ length row) × ReadsBack d columns row
  unfolding build_insert_document
  build_insert_document-ReadsBack columns row d e =
      elim (Bool-cases (length columns == length row)) [
        | inl equal ↦ (
          ground (arith, equal),
          insert_columns-ReadsBack columns row api.empty d (rw equal at e),
        )
        | inr unequal ↦ ground (arith, unequal)
      ]
