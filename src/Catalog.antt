-- ===== src/Catalog.antt =====
-- crates/catalog/src/lib.rs: the projection of a collection's profile to SQL columns. `expect` on the
-- column's position is an error with the text of the panic.
pub mod Columns
pub mod Total
pub mod Database
use mongres.Prelude.{
  ℕ, suc, ◌+◌, ◌^◌, String, Bool, true, false, ◌||◌, ltb, List, [], ◌∷◌, ◌++◌, Option, none, some,
  length, map, any, if◌then◌else◌,
}
use mongres.Order.Text.{text_ord}
use mongres.BTree.{insert, get, contains, extend}
use mongres.Common.{Result, ok, err, ◌>>=◌}
use mongres.Schema.{
  FieldPath, display_name, FieldProfile, is_ambiguous, SchemaProfile, ObservedType, type_ord,
}
use mongres.Schema.Infer.{or_default}

-- `SqlType`
pub data SqlType : Type 0 where
  boolean big_int double_precision text timestamp_with_time_zone jsonb : SqlType

-- `TableMetadata`
pub record TableMetadata : Type 0 where
  pub schema_name : String
  pub table_name : String

-- `ColumnMetadata`; its flag `is_ambiguous` is `ambiguous` here.
pub record ColumnMetadata : Type 0 where
  pub table : TableMetadata
  pub column_name : String
  pub ordinal_position : ℕ
  pub is_nullable : Bool
  pub sql_type : SqlType
  pub ambiguous : Bool
  pub source_paths : List FieldPath

-- `CollectionCatalog`
pub record CollectionCatalog : Type 0 where
  pub table : TableMetadata
  pub columns : List ColumnMetadata

-- `sql_type_for_observations`; the first element of a set is its least one.
unfoldable pub sql_type_for_observations : List ObservedType → SqlType
sql_type_for_observations (ObservedType.boolean ∷ rest) = boolean
sql_type_for_observations (ObservedType.integer ∷ rest) = big_int
sql_type_for_observations (ObservedType.floating_point ∷ rest) = double_precision
sql_type_for_observations (ObservedType.string ∷ rest) = text
sql_type_for_observations (ObservedType.object_id ∷ rest) = text
sql_type_for_observations (ObservedType.date_time ∷ rest) = timestamp_with_time_zone
sql_type_for_observations observed_types = jsonb

-- `flat_map(…).collect::<BTreeSet<_>>()` over the fields' types
unfoldable pub collect_types : List ObservedType → List FieldProfile → List ObservedType
collect_types types [] = types
collect_types types (f ∷ fs) = collect_types (extend types f.observed_types) fs

-- The column that `column_from_fields` makes.
abbrev pub column_of : TableMetadata → String → ℕ → List FieldProfile → ColumnMetadata
column_of table column_name index fields =
    let ambiguous = ltb 1 (length fields) || any is_ambiguous fields in
    record {
      table = table;
      column_name = column_name;
      ordinal_position = index + 1;
      is_nullable =
          any (λ f. ltb 0 f.missing_documents || contains ObservedType.null f.observed_types)
            fields;
      sql_type = if ambiguous then jsonb else sql_type_for_observations (collect_types [] fields);
      ambiguous = ambiguous;
      source_paths = map (λ f. f.path) fields;
    }

-- `column_from_fields`
unfoldable pub column_from_fields :
    TableMetadata → String → ℕ → List FieldProfile → Result String ColumnMetadata
unfolding sql_type_for_observations collect_types
column_from_fields table column_name index fields =
    if ltb (index + 1) (2 ^ 32)
    then ok (column_of table column_name index fields)
    else err "catalog column count exceeds u32"

-- The loop of `project_collection` that groups the fields by display name.
unfoldable pub group_fields :
    List (String × List FieldProfile) → List FieldProfile → List (String × List FieldProfile)
group_fields groups [] = groups
group_fields groups (f ∷ fs) =
    let name = display_name f.path in
    group_fields (insert name (or_default [] (get name groups) ++ f ∷ []) groups) fs

-- `enumerate().map(…).collect()`
unfoldable pub project_columns :
    TableMetadata → ℕ → List (String × List FieldProfile) → Result String (List ColumnMetadata)
project_columns table index [] = ok []
project_columns table index (g ∷ groups) = do
  column ← column_from_fields table g.0 index g.1
  columns ← project_columns table (suc index) groups
  ok (column ∷ columns)

-- `project_collection`
unfoldable pub project_collection :
    String → String → SchemaProfile → Result String CollectionCatalog
unfolding project_columns group_fields
project_collection schema_name table_name profile =
    let table : TableMetadata = record { schema_name = schema_name; table_name = table_name } in
    project_columns table 0 (group_fields [] profile.fields) >>= λ columns.
    ok (record { table = table; columns = columns })
