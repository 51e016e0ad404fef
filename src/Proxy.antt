-- ===== src/Proxy.antt =====
-- crates/proxy: the PostgreSQL boundary. Proxy/Ambiguity.antt is the orchestration of ambiguous
-- writes (src/ambiguity.rs). Proxy/PgType.antt has the types of the wire and Proxy/Parameters.antt the
-- decoding of parameters (src/parameters.rs). Proxy/Auth.antt is authentication (src/auth.rs). The other
-- files are about src/lib.rs: Proxy/Prepare.antt and Proxy/Statement.antt prepare statements,
-- Proxy/Wire.antt has results, Proxy/Session.antt the catalog and session queries, Proxy/Backend.antt
-- the execution of statements, Proxy/Config.antt the configured collections, and Proxy/Redaction.antt
-- what is logged of a statement.
pub mod Ambiguity
pub mod PgType
pub mod Prepare
pub mod Parameters
pub mod Wire
pub mod Session
pub mod Statement
pub mod Backend
pub mod Auth
pub mod Redaction
pub mod Config
