-- ===== src/Executor/Insert.antt =====
-- `build_insert_document` and `insert_nested_value` of crates/mongo-executor/src/lib.rs.
pub mod Nested
pub mod ReadBack
pub mod Total
use Prim.Native.String
use mongres.Prelude.{
  String, Bool, not, List, [], ◌∷◌, Option, none, some, length, ◌==◌, if◌then◌else◌,
}
use mongres.Bson.{BsonApi}
use mongres.Common.{Result, ok, err, ◌>>=◌, ProxyError}
use mongres.Schema.{FieldPath, is_literal_dotted_key, segments}
use mongres.Plan.{SqlValue}
use mongres.TypePolicy.{invalid_input}
use mongres.Executor.{bson_value, literal_dotted}

module _ (api : BsonApi) where
  open api use {Bson, Document}

  -- `insert_nested_value`; the mutation of a nested document in place writes it back under its name.
  unfoldable pub insert_nested_value : Document → List String → Bson → Result ProxyError Document
  insert_nested_value d [] value = err (invalid_input "INSERT field path cannot be empty")
  insert_nested_value d (name ∷ []) value = elim (api.get name d) [
    | some b ↦
        err (
          invalid_input
            (String.◌++◌ "INSERT assigns field '" (String.◌++◌ name "' more than once")))
    | none ↦ ok (api.insert name value d)
  ]
  insert_nested_value d (name ∷ next ∷ rest) value = elim (api.get name d) [
    | none ↦ insert_nested_value api.empty (next ∷ rest) value >>= λ nested.
        ok (api.insert name (api.document nested) d)
    | some b ↦ elim (api.as_document b) [
      | none ↦ err (
          invalid_input (
            String.◌++◌ "INSERT field path conflicts with non-document field '"
              (String.◌++◌ name "'")))
      | some nested ↦ insert_nested_value nested (next ∷ rest) value >>= λ nested'.
          ok (api.insert name (api.document nested') d)
    ]
  ]

  -- The loop of `build_insert_document` over `columns.iter().zip(row)`.
  unfoldable pub insert_columns :
      Document → List FieldPath → List SqlValue → Result ProxyError Document
  unfolding insert_nested_value
  insert_columns d [] row = ok d
  insert_columns d (path ∷ columns) [] = ok d
  insert_columns d (path ∷ columns) (value ∷ row) =
      if is_literal_dotted_key path then err literal_dotted else do
        b ← bson_value api value
        d' ← insert_nested_value d (segments path) b
        insert_columns d' columns row

  -- `build_insert_document`
  unfoldable pub build_insert_document : List FieldPath → List SqlValue → Result ProxyError Document
  unfolding insert_columns
  build_insert_document columns row =
      if not (length columns == length row)
      then err (invalid_input "INSERT row must contain one value for each declared column")
      else insert_columns api.empty columns row
