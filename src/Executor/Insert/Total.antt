-- ===== src/Executor/Insert/Total.antt =====
-- When an INSERT row becomes a document.
use mongres.Prelude.{
  ℕ, suc, String, true, false, List, [], ◌∷◌, none, some, ◌≡◌, ◌≢◌, ◌⊎◌, refl, sym, ◌∙◌, ap, arith,
  All, Bool-cases, inl, inr, length, ◌==◌,
}
use mongres.Bson.{BsonApi}
use mongres.Common.{ok}
use mongres.Order.{◌=ₖ◌, =ₖ_sound}
use mongres.Order.Text.{text_ord}
use mongres.Schema.{FieldPath, is_literal_dotted_key}
use mongres.Plan.{SqlValue}
use mongres.Binding.Closed.{IsBound}
use mongres.Executor.Filters.{bson_value_total}
use mongres.Executor.Insert.{insert_nested_value, insert_columns, build_insert_document}
use mongres.Executor.Insert.Nested.{
  Below, get_same, get_other, insert_nested_value-Below, insert_nested_value-leaf,
}
use mongres.Executor.Update.SetDocument.{Begins}

-- Neither path begins the other.
abbrev pub AreApart : List String → List String → Type 0
AreApart p q = ¬ (Begins p q ⊎ Begins q p)

AreApart-tail : (name : String) (p q : List String) → AreApart (name ∷ p) (name ∷ q) → AreApart p q
AreApart-tail name p q apart (inl (rest, e)) = apart (inl (rest, ap (λ r. name ∷ r) e))
AreApart-tail name p q apart (inr (rest, e)) = apart (inr (rest, ap (λ r. name ∷ r) e))

-- The columns and the values that a row needs: as many values as columns, none a placeholder; no path
-- empty or a literal dotted key, and none begins a later one or the other way round.
unfoldable pub IsInsertable : List FieldPath → List SqlValue → Type 0
IsInsertable [] [] = Unit
IsInsertable [] (value ∷ row) = ⊥
IsInsertable (path ∷ columns) [] = ⊥
IsInsertable (path ∷ columns) (value ∷ row) =
    (path ≢ [])
    × (is_literal_dotted_key path ≡ false)
    × All (AreApart path) columns
    × IsBound value
    × IsInsertable columns row

module _ (api : BsonApi) where
  open api use {Bson, Document}

  -- Nothing stands at the path, and documents on the way to it.
  IsFree : Document → List String → Type 0
  IsFree d [] = ⊥
  IsFree d (name ∷ []) = api.get name d ≡ none
  IsFree d (name ∷ next ∷ rest) =
      (api.get name d ≡ none)
      ⊎ ((b : Bson) × (nested : Document) × (api.get name d ≡ some b)
          × (api.as_document b ≡ some nested)
          × IsFree nested (next ∷ rest))

  empty-IsFree : (name : String) (rest : List String) → IsFree api.empty (name ∷ rest)
  unfolding IsFree
  empty-IsFree name [] = api.get-empty name
  empty-IsFree name (next ∷ rest) = inl (api.get-empty name)

  insert_nested_value_total :
      (path : List String) (d : Document) (v : Bson)
      → IsFree d path
      → (d' : Document) × (insert_nested_value api d path v ≡ ok d')
  unfolding IsFree insert_nested_value
  insert_nested_value_total [] d v free = absurd free
  insert_nested_value_total (name ∷ []) d v free =
      (api.insert name v d, rw (insert_nested_value, free) refl)
  insert_nested_value_total (name ∷ next ∷ rest) d v (inl absent) =
      let (nested, inner) =
        insert_nested_value_total (next ∷ rest) api.empty v (empty-IsFree next rest) in
      (api.insert name (api.document nested) d, rw (insert_nested_value, absent, inner) refl)
  insert_nested_value_total (name ∷ next ∷ rest) d v (inr (b, nested, present, is_document, free)) =
      let (nested', inner) = insert_nested_value_total (next ∷ rest) nested v free in
      (
        api.insert name (api.document nested') d,
        rw (insert_nested_value, present, is_document, inner) refl,
      )

  IsFree-other :
      (d d' : Document) (name : String) (rest : List String)
      → api.get name d' ≡ api.get name d
      → IsFree d (name ∷ rest)
      → IsFree d' (name ∷ rest)
  unfolding IsFree
  IsFree-other d d' name [] e free = e ∙ free
  IsFree-other d d' name (next ∷ rest) e (inl absent) = inl (e ∙ absent)
  IsFree-other d d' name (next ∷ rest) e (inr (b, nested, present, is_document, free)) =
      inr (b, nested, e ∙ present, is_document, free)

  IsFree-Below :
      (d nested : Document) (name next : String) (rest : List String)
      → Below api d name nested
      → IsFree d (name ∷ next ∷ rest)
      → IsFree nested (next ∷ rest)
  unfolding IsFree
  IsFree-Below d nested name next rest (inl (absent, same)) free = rw same (empty-IsFree next rest)
  IsFree-Below d nested name next rest (inr (b, present, is_document)) (inl absent) =
      absurd (ground (arith, present, absent))
  IsFree-Below d nested name next rest (inr (b, present, is_document))
        (inr (c, other, found, document, free)) =
      let same : other ≡ nested = ground (arith, present, is_document, found, document) in
      rw same at free

  IsFree-same :
      (name next : String) (rest more : List String) (d nested nested' : Document)
      → Below api d name nested
      → AreApart (name ∷ next ∷ rest) (name ∷ more)
      → IsFree d (name ∷ more)
      → (AreApart (next ∷ rest) more → IsFree nested more → IsFree nested' more)
      → IsFree (api.insert name (api.document nested') d) (name ∷ more)
  unfolding IsFree
  IsFree-same name next rest [] d nested nested' below apart free keep =
      absurd (apart (inr (next ∷ rest, refl)))
  IsFree-same name next rest (second ∷ more) d nested nested' below apart free keep = inr (
    api.document nested',
    nested',
    get_same api name (api.document nested') d,
    api.as_document-document nested',
    keep (AreApart-tail name (next ∷ rest) (second ∷ more) apart)
        (IsFree-Below d nested name second more below free),
  )

  -- An insertion leaves the paths free that are apart from its own.
  IsFree-preserved :
      (path other : List String) (d d' : Document) (v : Bson)
      → insert_nested_value api d path v ≡ ok d'
      → AreApart path other
      → IsFree d other
      → IsFree d' other
  IsFree-preserved [] other d d' v e apart free = absurd (apart (inl (other, refl)))
  IsFree-preserved path [] d d' v e apart free = absurd (apart (inr (path, refl)))
  IsFree-preserved (name ∷ []) (first ∷ more) d d' v e apart free =
      let (absent, same) = insert_nested_value-leaf api d d' name v e in
      elim (Bool-cases (first =ₖ name)) [
        | inl hit ↦
            let here = =ₖ_sound first name hit in
            absurd (apart (inl (more, ap (λ s. s ∷ more) (sym here))))
        | inr miss ↦ rw (← same) (
            IsFree-other d (api.insert name v d) first more (get_other api first name v d miss)
              free)
      ]
  IsFree-preserved (name ∷ next ∷ rest) (first ∷ more) d d' v e apart free =
      let (nested, nested', below, inner, same) =
        insert_nested_value-Below api d d' name next rest v e in
      let written = api.document nested' in
      elim (Bool-cases (first =ₖ name)) [
        | inl hit ↦
            let here = =ₖ_sound first name hit in
            rw (here, ← same)
              (IsFree-same name next rest more d nested nested' below (rw here at apart)
                (rw here at free) (IsFree-preserved (next ∷ rest) more nested nested' v inner))
        | inr miss ↦ rw (← same) (
            IsFree-other d (api.insert name written d) first more
              (get_other api first name written d miss) free)
      ]

  insert_columns_total :
      (columns : List FieldPath) (row : List SqlValue) (d : Document)
      → IsInsertable columns row
      → All (IsFree d) columns
      → (d' : Document) × (insert_columns api d columns row ≡ ok d')
  unfolding IsInsertable insert_columns
  insert_columns_total [] row d h free = (d, refl)
  insert_columns_total (path ∷ columns) [] d h free = absurd h
  insert_columns_total (path ∷ columns) (value ∷ row) d (some_path, plain, apart, bound, h)
        (here, free) =
      let (b, converted) = bson_value_total api value bound in
      let (d1, placed) = insert_nested_value_total path d b here in
      let (d2, rest) =
        insert_columns_total columns row d1 h (all_free columns d d1 path b placed apart free) in
      (d2, rw (plain, converted, placed) rest)
    where
      all_free :
          (columns : List FieldPath) (d d1 : Document) (path : FieldPath) (b : Bson)
          → insert_nested_value api d path b ≡ ok d1
          → All (AreApart path) columns
          → All (IsFree d) columns
          → All (IsFree d1) columns
      all_free [] d d1 path b placed apart free = tt
      all_free (q ∷ columns) d d1 path b placed (p, apart) (f, free) = (
        IsFree-preserved path q d d1 b placed p f,
        all_free columns d d1 path b placed apart free,
      )

  empty-AllFree :
      (columns : List FieldPath) (row : List SqlValue)
      → IsInsertable columns row
      → (length columns ≡ length row) × All (IsFree api.empty) columns
  unfolding IsInsertable
  empty-AllFree [] [] h = (refl, tt)
  empty-AllFree [] (value ∷ row) h = absurd h
  empty-AllFree (path ∷ columns) [] h = absurd h
  empty-AllFree ([] ∷ columns) (value ∷ row) (some_path, plain, apart, bound, h) =
      absurd (some_path refl)
  empty-AllFree ((name ∷ path) ∷ columns) (value ∷ row) (some_path, plain, apart, bound, h) =
      let (equal, free) = empty-AllFree columns row h in
      (ap suc equal, (empty-IsFree name path, free))

  -- A row with one bound value for each column becomes a document, if no column's path is empty or a
  -- literal dotted key and none begins another one.
  pub build_insert_document_total :
      (columns : List FieldPath) (row : List SqlValue)
      → IsInsertable columns row
      → (d : Document) × (build_insert_document api columns row ≡ ok d)
  unfolding build_insert_document
  build_insert_document_total columns row h =
      let (equal, free) = empty-AllFree columns row h in
      let (d, built) = insert_columns_total columns row api.empty h free in
      (d, rw (same_length equal) built)
    where
      same_length : {m n : ℕ} → m ≡ n → (m == n) ≡ true
      same_length e = ground (arith, e)
