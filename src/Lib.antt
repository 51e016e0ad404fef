-- ===== src/Lib.antt =====
-- A PostgreSQL front end for MongoDB: SQL statements become typed plans, typed plans become BSON
-- documents for the MongoDB driver, and a write whose target fields were sampled with more than one
-- meaning is stopped unless an external resolver picks one of a few candidates that the program
-- itself allows.
--
-- The parts, in the order in which a statement meets them, and the files that model them:
--
-- * Schema.antt and Schema/ (crates/schema-discovery/src/lib.rs): sampled documents are folded into a
--   profile of every field path (`infer`, `observe_value`, `mark_dotted_key_collisions`), and the
--   configured collection names are validated (`validated_collection_names`). Schema/Persist.antt samples
--   a collection and writes and reads the persisted profiles, over the record `Database`. A BTreeMap
--   is the list of its entries in the order of iteration.
-- * Catalog.antt and Catalog/ (crates/catalog/src/lib.rs): `project_collection` makes the SQL columns of
--   a profile; the panic on a position outside `u32` is an error. Catalog/Database.antt is the catalog
--   of all collections.
-- * Plan.antt (crates/sql-engine/src/plan.rs): the typed plans. `Vec<Predicate>` inside `Predicate`
--   is the second type `Predicates` of a mutual block.
-- * Sql.antt and Sql/ (crates/sql-engine/src/lowering.rs, resolve.rs): Sql/Ast.antt is the view of the
--   syntax tree of the sqlparser crate, with the cases that the code tells apart and one case for the
--   others. Sql/Resolve.antt resolves identifiers against a profile, Sql/Lowering.antt lowers a
--   statement (`lower_statement`), and Sql/Lowering/Router.antt picks the profile of the collection that
--   a statement names (`parse_sql_for_profiles`).
-- * Binding.antt and Binding/ (crates/sql-engine/src/binding.rs): `bind_parameters` puts values in
--   place of the placeholders `$n`, and TypePolicy.antt (crates/sql-engine/src/type_policy.rs)
--   validates the result against the profile.
-- * Policy.antt and Policy/ (crates/ambiguity-policy/src/lib.rs, audit.rs): `detect_write_ambiguities`,
--   `allowed_candidates`, `resolver_request`, `validate_resolver_response`, `apply_resolution`, and the
--   redacted audit data.
-- * Proxy/Ambiguity.antt (crates/proxy/src/ambiguity.rs): `resolve_write_plan` composes the policy with
--   a resolver. The mutex with the audit records is a log that every call takes and returns; a
--   poisoned lock drops the record, as in the source.
-- * Proxy/PgType.antt and Proxy/Parameters.antt (crates/proxy/src/parameters.rs): `decode_parameter` reads
--   the bytes of a parameter in the text or the binary format.
-- * Proxy/Prepare.antt and Proxy/Statement.antt (crates/proxy/src/lib.rs): the types of the parameters of
--   a prepared statement, and its parameters in a portal.
-- * Proxy/Wire.antt, Proxy/Session.antt and Proxy/Backend.antt (crates/proxy/src/lib.rs): the values of a
--   result, the catalog and session queries, and `ProxyBackend`, which parses, binds, executes and
--   describes a statement. An operation takes the audit log and the world of the driver and
--   returns both. `command_result` panics on a SELECT, which its caller never passes; in the model it
--   is an error.
-- * Proxy/Auth.antt (crates/proxy/src/auth.rs): the configuration of authentication and the two startup
--   handlers as actions on a client.
-- * Proxy/Config.antt (crates/proxy/src/lib.rs): `parse_configured_collection_names`, with the texts of
--   the two settings as arguments.
-- * Proxy/Redaction.antt (crates/proxy/src/lib.rs): `redact_sql_literals`.
-- * Executor.antt and Executor/ (crates/mongo-executor/src/lib.rs): filters, projections, INSERT and
--   `$set` documents, and the calls of the driver.
-- * Common.antt (crates/common/src/lib.rs): errors, and the result monad for `?`.
--
-- Shared helpers: Prelude.antt with its children, Order.antt (`Ord` and the derived orders), BTree.antt
-- (BTreeMap and BTreeSet), Text.antt (the functions of `str` in use), F64.antt (`f64` by its bits).
-- Tests.antt and Tests/ run the definitions at concrete inputs.
--
-- Code outside the repository is a parameter. The bson crate is the record `BsonApi` of Bson.antt, with
-- the laws of a document that the executor relies on, and Bson/Concrete.antt fills it. The driver is
-- the record `Driver` of Executor/Run.antt, whose calls act on a world of its own type. The resolver is
-- any function from requests to results, and in Proxy/Backend/Audited/Reached.antt another one in each
-- step, so no property depends on what it answers. The parser of the
-- sqlparser crate is a function from text to statements or an error, the client of the pgwire crate is
-- the record `ClientApi` of Proxy/Auth.antt, and the names, OIDs and formats of its types, the readers
-- of UTF-8 text and of floating point numbers, and the cases of a Bson value are functions. How an `f64` is
-- printed, and how a ratio is scaled to basis points, are functions too; where a property needs
-- every ratio above 0 to scale to at most 10,000 it says so in a hypothesis.
--
-- Bounds: `usize`, `u64` and `u32` counts are natural numbers, since the code only adds one per sampled
-- document or per element of a list in memory. An `i64` is an integer, and `parse_i64` checks its
-- range; `parse_usize` checks that of a 64-bit `usize`; the limit of a SELECT is checked against the
-- range of `i64` as in the source. Every loop is a structural recursion, so there is no fuel.
--
-- Not modelled: the server loop, the reading of the environment, the handlers of the pgwire crate and
-- the encoding of their responses, and the printing of logs (crates/proxy/src/lib.rs, main.rs); the
-- HTTP client of the resolver (crates/resolver-client); the client options of the driver
-- (crates/mongo-executor); the command line of crates/schema-discovery; and the Python service (services/ambiguity-resolver). They are input and
-- output, or stand on the types of other crates.
pub mod Prelude
pub mod Order
pub mod BTree
pub mod Text
pub mod F64
pub mod Common
pub mod Schema
pub mod Plan
pub mod TypePolicy
pub mod Binding
pub mod Policy
pub mod Bson
pub mod Executor
pub mod Proxy
pub mod Catalog
pub mod Sql
pub mod Tests
