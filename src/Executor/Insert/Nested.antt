-- ===== src/Executor/Insert/Nested.antt =====
-- `insert_nested_value`, read back: the values at the paths of nested documents.
use mongres.Prelude.{
  String, false, List, [], ◌∷◌, Option, none, some, ◌≡◌, refl, ◌∙◌, arith, Bool-cases, inl, inr,
  ◌⊎◌, Option-cases,
}
use mongres.Bson.{BsonApi}
use mongres.Common.{Result, ok, err, ProxyError}
use mongres.Common.Results.{>>=-eq-ok, ok_injective}
use mongres.Order.{◌=ₖ◌, =ₖ_refl, =ₖ_sound}
use mongres.Order.Text.{text_ord}
use mongres.Executor.Insert.{insert_nested_value}

module _ (api : BsonApi) where
  open api use {Bson, Document}

  -- The value at a path of nested documents.
  unfoldable pub find_path : Document → List String → Option Bson
  find_path d [] = none
  find_path d (name ∷ []) = api.get name d
  find_path d (name ∷ next ∷ rest) = elim (api.get name d) [
    | none ↦ none
    | some b ↦ elim (api.as_document b) [
      | none ↦ none
      | some nested ↦ find_path nested (next ∷ rest)
    ]
  ]

  pub get_same : (k : String) (v : Bson) (d : Document) → api.get k (api.insert k v d) ≡ some v
  get_same k v d = ground (arith, api.get-insert k k v d, =ₖ_refl k)

  pub get_other :
      (j k : String) (v : Bson) (d : Document)
      → (j =ₖ k) ≡ false
      → api.get j (api.insert k v d) ≡ api.get j d
  get_other j k v d h = ground (arith, api.get-insert j k v d)

  find_same :
      (name next : String) (rest : List String) (d nested : Document)
      → find_path (api.insert name (api.document nested) d) (name ∷ next ∷ rest)
        ≡ find_path nested (next ∷ rest)
  unfolding find_path
  find_same name next rest d nested =
      rw (find_path, get_same name (api.document nested) d, api.as_document-document nested) refl

  -- The document that is found under a name, or the empty one.
  abbrev pub Below : Document → String → Document → Type 0
  Below d name nested =
      ((api.get name d ≡ none) × (nested ≡ api.empty))
      ⊎ ((b : Bson) × (api.get name d ≡ some b) × (api.as_document b ≡ some nested))

  -- A successful insertion below a name inserts into the document that stands there.
  pub insert_nested_value-Below :
      (d d' : Document) (name next : String) (rest : List String) (v : Bson)
      → insert_nested_value api d (name ∷ next ∷ rest) v ≡ ok d'
      → (nested nested' : Document) × Below d name nested
        × (insert_nested_value api nested (next ∷ rest) v ≡ ok nested')
        × (api.insert name (api.document nested') d ≡ d')
  unfolding insert_nested_value
  insert_nested_value-Below d d' name next rest v e = elim (Option-cases (api.get name d)) [
    | inl absent ↦
        let (nested', inner, same) = >>=-eq-ok _ _ (rw (insert_nested_value, absent) at e) in
        (api.empty, nested', inl (absent, refl), inner, ok_injective same)
    | inr (b, present) ↦ elim (Option-cases (api.as_document b)) [
      | inl scalar ↦ absurd (no_document (rw (insert_nested_value, present, scalar) at e))
      | inr (nested, is_document) ↦
          let (nested', inner, same) =
            >>=-eq-ok _ _ (rw (insert_nested_value, present, is_document) at e) in
          (nested, nested', inr (b, present, is_document), inner, ok_injective same)
    ]
  ]
    where
      no_document : {x : ProxyError} → ◌≡◌ {A = Result ProxyError Document} (err x) (ok d') → ⊥
      no_document e = cc

  -- An inserted value is found at its path.
  pub find_path-insert_nested_value :
      (path : List String) (d d' : Document) (v : Bson)
      → insert_nested_value api d path v ≡ ok d'
      → find_path d' path ≡ some v
  unfolding insert_nested_value find_path
  find_path-insert_nested_value [] d d' v e = cc
  find_path-insert_nested_value (name ∷ []) d d' v e =
      ground (arith, get_same name v d, api.get name d)
  find_path-insert_nested_value (name ∷ next ∷ rest) d d' v e =
      let (nested, nested', below, inner, same) =
        insert_nested_value-Below d d' name next rest v e in
      rw (← same, find_same name next rest d nested')
        (find_path-insert_nested_value (next ∷ rest) nested nested' v inner)

  -- The value at a path depends on what stands under its first name.
  find_path_other :
      (d d' : Document) (name : String) (rest : List String)
      → api.get name d' ≡ api.get name d
      → find_path d' (name ∷ rest) ≡ find_path d (name ∷ rest)
  unfolding find_path
  find_path_other d d' name [] e = e
  find_path_other d d' name (next ∷ rest) e = rw (find_path, e) refl

  find_deep :
      (d nested : Document) (name next : String) (rest : List String)
      → Below d name nested
      → {w : Bson} → find_path d (name ∷ next ∷ rest) ≡ some w
      → find_path nested (next ∷ rest) ≡ some w
  unfolding find_path
  find_deep d nested name next rest (inl (absent, same)) found = ground (arith, absent)
  find_deep d nested name next rest (inr (b, present, is_document)) found =
      ground (arith, present, is_document)

  find_absent :
      (d : Document) (name : String) (rest : List String)
      → api.get name d ≡ none
      → find_path d (name ∷ rest) ≡ none
  unfolding find_path
  find_absent d name [] e = e
  find_absent d name (next ∷ rest) e = rw (find_path, e) refl

  pub insert_nested_value-leaf :
      (d d' : Document) (name : String) (v : Bson)
      → insert_nested_value api d (name ∷ []) v ≡ ok d'
      → (api.get name d ≡ none) × (api.insert name v d ≡ d')
  unfolding insert_nested_value
  insert_nested_value-leaf d d' name v e = ground (arith, api.get name d)

  -- What was found under the name of a successful insertion below it.
  Kept : List String → Document → Document → Bson → Type 0
  Kept rest nested nested' w = find_path nested rest ≡ some w → find_path nested' rest ≡ some w

  find_path-same_name :
      (d nested nested' : Document) (name next : String) (rest more : List String) (w : Bson)
      → Below d name nested
      → api.as_document w ≡ none
      → Kept more nested nested' w
      → find_path d (name ∷ more) ≡ some w
      → find_path (api.insert name (api.document nested') d) (name ∷ more) ≡ some w
  unfolding find_path Kept
  find_path-same_name d nested nested' name next rest [] w (inl (absent, same)) scalar kept found =
      ground (arith, absent)
  find_path-same_name d nested nested' name next rest [] w (inr (b, present, is_document)) scalar
        kept found =
      ground (arith, present, is_document)
  find_path-same_name d nested nested' name next rest (second ∷ more) w below scalar kept found =
      find_same name second more d nested' ∙ kept (find_deep d nested name second more below found)

  -- What was found at a path and is no document is found there after an insertion.
  pub find_path_preserved :
      (path other : List String) (d d' : Document) (v w : Bson)
      → insert_nested_value api d path v ≡ ok d'
      → find_path d other ≡ some w
      → api.as_document w ≡ none
      → find_path d' other ≡ some w
  unfolding Kept
  find_path_preserved [] other d d' v w e found scalar = unfold insert_nested_value in cc
  find_path_preserved path [] d d' v w e found scalar = unfold find_path in cc
  find_path_preserved (name ∷ []) (first ∷ more) d d' v w e found scalar =
      let (absent, same) = insert_nested_value-leaf d d' name v e in
      elim (Bool-cases (first =ₖ name)) [
        | inl hit ↦ ground (arith, find_absent d name more absent, =ₖ_sound first name hit)
        | inr miss ↦ rw (← same) (
            find_path_other d (api.insert name v d) first more (get_other first name v d miss)
            ∙ found)
      ]
  find_path_preserved (name ∷ next ∷ rest) (first ∷ more) d d' v w e found scalar =
      let (nested, nested', below, inner, same) =
        insert_nested_value-Below d d' name next rest v e in
      elim (Bool-cases (first =ₖ name)) [
        | inl hit ↦
            let here = =ₖ_sound first name hit in
            rw (here, ← same)
              (find_path-same_name d nested nested' name next rest more w below scalar
                (λ held.
                  find_path_preserved (next ∷ rest) more nested nested' v w inner held scalar)
                (rw here at found))
        | inr miss ↦ rw (← same) (
            find_path_other d (api.insert name (api.document nested') d) first more
              (get_other first name (api.document nested') d miss)
            ∙ found)
      ]
