-- ===== src/Executor/Outcome.antt =====
-- `WriteOutcome` of crates/mongo-executor/src/lib.rs.
use mongres.Prelude.{ℕ}

pub record WriteOutcome : Type 0 where
  pub matched : ℕ
  pub modified : ℕ
  pub inserted : ℕ
  pub deleted : ℕ

-- `WriteOutcome::default()`
abbrev pub no_writes : WriteOutcome
no_writes = record { matched = 0; modified = 0; inserted = 0; deleted = 0 }
