-- ===== src/Sql.antt =====
-- crates/sql-engine: from the syntax tree of a statement to a typed plan. The tree is in Sql/Ast.antt,
-- names, literals and predicates (src/resolve.rs) in Sql/Resolve.antt, the statements
-- (src/lowering.rs) in Sql/Lowering.antt.
pub mod Ast
pub mod Resolve
pub mod Lowering
use Prim.Native.String
use mongres.Prelude.{String}
use mongres.Common.{ProxyError, proxy_error, ErrorKind}

-- `unsupported_feature`
abbrev pub unsupported_feature : String → ProxyError
unsupported_feature feature =
    proxy_error ErrorKind.feature_not_supported
      (String.◌++◌ "SQL feature is not supported: " feature)
