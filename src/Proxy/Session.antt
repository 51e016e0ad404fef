-- ===== src/Proxy/Session.antt =====
-- The queries about the catalog or the session that crates/proxy/src/lib.rs answers without the
-- database: how they are recognized, and the answers.
use mongres.Prelude.{String, Bool, false, ◌||◌, [], ◌∷◌, Option, none, some, map, if◌then◌else◌}
use mongres.Prelude.Int.{pos}
use mongres.Text.Search.{codes, contains, equal, starts_with, normalized}
use mongres.Catalog.{SqlType, ColumnMetadata, CollectionCatalog}
use mongres.Catalog.Database.{DatabaseCatalog, tables, columns, information_schema_name, udt_name}
use mongres.Proxy.Wire.{wire_field, WireValue, ExecutionResult}

-- `is_catalog_or_session_query`
unfoldable pub is_catalog_or_session_query : String → Bool
unfolding codes contains equal starts_with normalized
is_catalog_or_session_query query =
    let text = normalized query in
    equal text (codes "select 1")
    || (contains (codes "current_database()") text
        || (contains (codes "current_schema()") text
            || (contains (codes "version()") text
                || (starts_with (codes "show server_version") text
                    || (contains (codes "information_schema.tables") text
                        || (contains (codes "information_schema.columns") text
                            || (contains (codes "pg_catalog.pg_tables") text
                                || contains (codes "pg_catalog.pg_class") text)))))))

-- One row with one text
abbrev text_answer : String → String → ExecutionResult
text_answer name answer =
    ExecutionResult.query (wire_field name SqlType.text ∷ []) ((WireValue.text answer ∷ []) ∷ [])

-- `information_schema_tables`
unfoldable pub information_schema_tables : DatabaseCatalog → ExecutionResult
information_schema_tables catalog =
    ExecutionResult.query
      (wire_field "table_schema" SqlType.text
        ∷ wire_field "table_name" SqlType.text
        ∷ wire_field "table_type" SqlType.text
        ∷ [])
      (map
        (λ (t : CollectionCatalog).
          WireValue.text t.table.schema_name
          ∷ WireValue.text t.table.table_name
          ∷ WireValue.text "BASE TABLE"
          ∷ [])
        (tables catalog))

-- `information_schema_columns`
unfoldable pub information_schema_columns : DatabaseCatalog → ExecutionResult
information_schema_columns catalog =
    ExecutionResult.query
      (wire_field "table_schema" SqlType.text
        ∷ wire_field "table_name" SqlType.text
        ∷ wire_field "column_name" SqlType.text
        ∷ wire_field "ordinal_position" SqlType.big_int
        ∷ wire_field "is_nullable" SqlType.text
        ∷ wire_field "data_type" SqlType.text
        ∷ wire_field "udt_name" SqlType.text
        ∷ [])
      (map
        (λ (c : ColumnMetadata).
          WireValue.text c.table.schema_name
          ∷ WireValue.text c.table.table_name
          ∷ WireValue.text c.column_name
          ∷ WireValue.integer (pos c.ordinal_position)
          ∷ WireValue.text (if c.is_nullable then "YES" else "NO")
          ∷ WireValue.text (information_schema_name c.sql_type)
          ∷ WireValue.text (udt_name c.sql_type)
          ∷ [])
        (columns catalog))

-- `pg_tables`
unfoldable pub pg_tables : DatabaseCatalog → ExecutionResult
pg_tables catalog =
    ExecutionResult.query
      (wire_field "schemaname" SqlType.text
        ∷ wire_field "tablename" SqlType.text
        ∷ wire_field "tableowner" SqlType.text
        ∷ wire_field "tablespace" SqlType.text
        ∷ wire_field "hasindexes" SqlType.boolean
        ∷ wire_field "hasrules" SqlType.boolean
        ∷ wire_field "hastriggers" SqlType.boolean
        ∷ wire_field "rowsecurity" SqlType.boolean
        ∷ [])
      (map
        (λ (t : CollectionCatalog).
          WireValue.text t.table.schema_name
          ∷ WireValue.text t.table.table_name
          ∷ WireValue.text "mongo-pg-proxy"
          ∷ WireValue.null
          ∷ WireValue.boolean false
          ∷ WireValue.boolean false
          ∷ WireValue.boolean false
          ∷ WireValue.boolean false
          ∷ [])
        (tables catalog))

-- `psql_relation_listing`
unfoldable pub psql_relation_listing : DatabaseCatalog → ExecutionResult
psql_relation_listing catalog =
    ExecutionResult.query
      (wire_field "Schema" SqlType.text
        ∷ wire_field "Name" SqlType.text
        ∷ wire_field "Type" SqlType.text
        ∷ wire_field "Owner" SqlType.text
        ∷ [])
      (map
        (λ (t : CollectionCatalog).
          WireValue.text t.table.schema_name
          ∷ WireValue.text t.table.table_name
          ∷ WireValue.text "table"
          ∷ WireValue.text "mongo-pg-proxy"
          ∷ [])
        (tables catalog))

-- `if test { return Some(result) }`, then the rest
unfoldable pub answer_if : Bool → ExecutionResult → Option ExecutionResult → Option ExecutionResult
answer_if test result rest = if test then some result else rest

-- `catalog_or_session_query`
unfoldable pub catalog_or_session_query : String → DatabaseCatalog → String → Option ExecutionResult
unfolding codes contains equal starts_with normalized information_schema_tables
    information_schema_columns pg_tables psql_relation_listing
catalog_or_session_query database_name catalog query =
    let text = normalized query in
    answer_if (equal text (codes "select 1"))
      (ExecutionResult.query (wire_field "?column?" SqlType.big_int ∷ [])
        ((WireValue.integer (pos 1) ∷ []) ∷ []))
      (answer_if (contains (codes "current_database()") text)
        (text_answer "current_database" database_name)
        (answer_if (contains (codes "current_schema()") text)
          (text_answer "current_schema" "public")
          (answer_if (contains (codes "version()") text)
            (text_answer "version" "PostgreSQL 16.0 (mongo-pg-proxy)")
            (answer_if (starts_with (codes "show server_version") text)
              (text_answer "server_version" "16.0")
              (answer_if (contains (codes "information_schema.tables") text)
                (information_schema_tables catalog)
                (answer_if (contains (codes "information_schema.columns") text)
                  (information_schema_columns catalog)
                  (answer_if (contains (codes "pg_catalog.pg_tables") text) (pg_tables catalog) (
                    answer_if (contains (codes "pg_catalog.pg_class") text)
                      (psql_relation_listing catalog) none))))))))
