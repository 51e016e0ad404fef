-- ===== src/Catalog/Total.antt =====
-- The projection returns: no column's position leaves `u32`.
use mongres.Prelude.{
  ℕ, suc, ◌+◌, ◌^◌, ◌<◌, ◌≤◌, String, List, [], ◌∷◌, ◌++◌, length, ◌≡◌, refl, arith, ltb,
  Bool-cases, inl, inr,
}
use mongres.Order.Text.{text_ord}
use mongres.BTree.{insert, get}
use mongres.Common.{ok}
use mongres.Schema.{display_name, FieldProfile, SchemaProfile}
use mongres.Schema.Infer.{or_default}
use mongres.Catalog.{
  TableMetadata, ColumnMetadata, CollectionCatalog, column_of, column_from_fields, group_fields,
  project_columns, project_collection,
}

length-insert :
    {V : Type 0} (k : String) (v : V) (m : List (String × V))
    → length (insert k v m) ≤ suc (length m)
unfolding insert
length-insert k v [] = omega arith
length-insert k v ((j, w) ∷ m) = ground (arith, length-insert k v m)

length-group_fields :
    (fs : List FieldProfile) (groups : List (String × List FieldProfile))
    → length (group_fields groups fs) ≤ length groups + length fs
unfolding group_fields
length-group_fields [] groups = omega arith
length-group_fields (f ∷ fs) groups =
    let name = display_name f.path in
    let grown = or_default [] (get name groups) ++ f ∷ [] in
    omega
      (arith, length-group_fields fs (insert name grown groups), length-insert name grown groups)

column_from_fields_total :
    (table : TableMetadata) (name : String) (index : ℕ) (fs : List FieldProfile)
    → index + 1 < 2 ^ 32
    → (c : ColumnMetadata) × (column_from_fields table name index fs ≡ ok c)
unfolding column_from_fields
column_from_fields_total table name index fs h = elim (Bool-cases (ltb (index + 1) (2 ^ 32))) [
  | inl small ↦ (column_of table name index fs, rw (column_from_fields, small) refl)
  | inr large ↦ absurd (ground (arith, large))
]

project_columns_total :
    (table : TableMetadata) (groups : List (String × List FieldProfile)) (index : ℕ)
    → index + length groups < 2 ^ 32
    → (columns : List ColumnMetadata) × (project_columns table index groups ≡ ok columns)
unfolding project_columns
project_columns_total table [] index h = ([], refl)
project_columns_total table ((name, fs) ∷ groups) index h =
    let (c, here) = column_from_fields_total table name index fs (omega arith) in
    let (cs, there) = project_columns_total table groups (suc index) (omega arith) in
    (c ∷ cs, rw (here, there) refl)

-- A profile with fewer than 2 ^ 32 fields has a catalog.
pub project_collection_total :
    (schema_name table_name : String) (profile : SchemaProfile)
    → length profile.fields < 2 ^ 32
    → (catalog : CollectionCatalog) × (project_collection schema_name table_name profile
        ≡ ok catalog)
unfolding project_collection
project_collection_total schema_name table_name profile h =
    let table : TableMetadata = record { schema_name = schema_name; table_name = table_name } in
    let groups = group_fields [] profile.fields in
    let (columns, projected) =
      project_columns_total table groups 0 (omega (arith, length-group_fields profile.fields [])) in
    (record { table = table; columns = columns }, rw projected refl)
