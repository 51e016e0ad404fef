-- ===== src/Catalog/Database.antt =====
-- `DatabaseCatalog` of crates/catalog/src/lib.rs: the catalog of every configured collection, and what
-- catalog queries say of a type.
use mongres.Prelude.{ℕ, String, List, [], ◌∷◌, ◌++◌, Option, map}
use mongres.Order.Text.{text_ord}
use mongres.BTree.{get}
use mongres.Common.{Result, ok, ◌>>=◌}
use mongres.Schema.{SchemaProfile}
use mongres.Catalog.{SqlType, ColumnMetadata, CollectionCatalog, project_collection}

-- `SqlType::information_schema_name`
abbrev pub information_schema_name : SqlType → String
information_schema_name SqlType.boolean = "boolean"
information_schema_name SqlType.big_int = "bigint"
information_schema_name SqlType.double_precision = "double precision"
information_schema_name SqlType.text = "text"
information_schema_name SqlType.timestamp_with_time_zone = "timestamp with time zone"
information_schema_name SqlType.jsonb = "jsonb"

-- `SqlType::udt_name`
abbrev pub udt_name : SqlType → String
udt_name SqlType.boolean = "bool"
udt_name SqlType.big_int = "int8"
udt_name SqlType.double_precision = "float8"
udt_name SqlType.text = "text"
udt_name SqlType.timestamp_with_time_zone = "timestamptz"
udt_name SqlType.jsonb = "jsonb"

-- `SqlType::oid`
abbrev pub oid : SqlType → ℕ
oid SqlType.boolean = 16
oid SqlType.big_int = 20
oid SqlType.double_precision = 701
oid SqlType.text = 25
oid SqlType.timestamp_with_time_zone = 1184
oid SqlType.jsonb = 3802

-- `DatabaseCatalog`
abbrev pub DatabaseCatalog : Type 0
DatabaseCatalog = List (String × CollectionCatalog)

-- `DatabaseCatalog::table`
abbrev pub table : DatabaseCatalog → String → Option CollectionCatalog
table catalog name = get name catalog

-- `DatabaseCatalog::tables`
abbrev pub tables : DatabaseCatalog → List CollectionCatalog
tables catalog = map (λ (e : String × CollectionCatalog). e.1) catalog

abbrev columns_of : List CollectionCatalog → List ColumnMetadata
columns_of [] = []
columns_of (t ∷ ts) = t.columns ++ columns_of ts

-- `DatabaseCatalog::columns`
abbrev pub columns : DatabaseCatalog → List ColumnMetadata
columns catalog = columns_of (tables catalog)

-- `project_public_collection`
unfoldable pub project_public_collection : String → SchemaProfile → Result String CollectionCatalog
project_public_collection name profile = project_collection "public" name profile

-- `project_public_collections`: the iteration keeps the keys and their order.
unfoldable pub project_public_collections :
    List (String × SchemaProfile) → Result String DatabaseCatalog
unfolding project_public_collection
project_public_collections [] = ok []
project_public_collections ((name, profile) ∷ profiles) = do
  catalog ← project_public_collection name profile
  rest ← project_public_collections profiles
  ok ((name, catalog) ∷ rest)
