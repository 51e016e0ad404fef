-- ===== src/Proxy/PgType.antt =====
-- The PostgreSQL types of the pgwire crate that crates/proxy names; any other is told by its OID.
use mongres.Prelude.{ℕ, Bool, true, false, ◌==◌}

-- `Type`
pub data PgType : Type 0 where
  bool int2 int4 int8 float4 float8 text varchar bpchar unknown timestamptz jsonb : PgType
  other : ℕ → PgType

-- `==` of types
unfoldable pub same_type : PgType → PgType → Bool
same_type PgType.bool PgType.bool = true
same_type PgType.int2 PgType.int2 = true
same_type PgType.int4 PgType.int4 = true
same_type PgType.int8 PgType.int8 = true
same_type PgType.float4 PgType.float4 = true
same_type PgType.float8 PgType.float8 = true
same_type PgType.text PgType.text = true
same_type PgType.varchar PgType.varchar = true
same_type PgType.bpchar PgType.bpchar = true
same_type PgType.unknown PgType.unknown = true
same_type PgType.timestamptz PgType.timestamptz = true
same_type PgType.jsonb PgType.jsonb = true
same_type (PgType.other m) (PgType.other n) = m == n
same_type s t = false
