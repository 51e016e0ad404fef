-- ===== src/Tests/Catalog.antt =====
-- The catalog at a concrete input.
use mongres.Prelude.{refl, arith, ◌<◌, ◌^◌, ◌≡◌, [], ◌∷◌, map, false, true}
use mongres.BTree.Sorted.{IsSorted}
use mongres.Order.Text.{text_ord}
use mongres.Common.{ok}
use mongres.Catalog.{project_collection, CollectionCatalog, TableMetadata, ColumnMetadata, SqlType}
use mongres.Catalog.Columns.{Describes, project_collection-Describes}
use mongres.Catalog.Total.{project_collection_total}
use mongres.Tests.Data.{users, age, name_path}

abbrev table : TableMetadata
table = record { schema_name = "public"; table_name = "users" }

abbrev age_column : ColumnMetadata
age_column = record {
  table = table;
  column_name = "age";
  ordinal_position = 1;
  is_nullable = false;
  sql_type = SqlType.jsonb;
  ambiguous = true;
  source_paths = age ∷ [];
}

abbrev name_column : ColumnMetadata
name_column = record {
  table = table;
  column_name = "name";
  ordinal_position = 2;
  is_nullable = false;
  sql_type = SqlType.text;
  ambiguous = false;
  source_paths = name_path ∷ [];
}

abbrev catalog : CollectionCatalog
catalog = record { table = table; columns = age_column ∷ name_column ∷ [] }

two-lt-bound : 2 < 2 ^ 32
two-lt-bound = omega arith

project_collection-Describes_example :
    IsSorted (map (λ c. c.column_name) catalog.columns) × Describes users.fields 0 catalog.columns
unfolding project_collection mongres.BTree.insert mongres.Text.join_dots
    mongres.Catalog.column_from_fields mongres.BTree.get mongres.BTree.contains
    mongres.Schema.is_ambiguous mongres.BTree.extend
project_collection-Describes_example =
    project_collection-Describes "public" "users" users catalog refl

project_collection_total_example :
    (catalog : CollectionCatalog) × (project_collection "public" "users" users ≡ ok catalog)
project_collection_total_example = project_collection_total "public" "users" users two-lt-bound
