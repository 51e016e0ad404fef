-- ===== src/Executor/Run.antt =====
-- `execute_select`, `execute_insert`, `execute_update`, `execute_delete`, `execute_write` and
-- `execute_read_only` of crates/mongo-executor/src/lib.rs. The driver is an interface: its calls act
-- on a world, and an error of a call is the text that it prints.
pub mod Validated
use Prim.Native.String
use mongres.Prelude.{
  ℕ, suc, ◌^◌, String, Bool, List, [], ◌∷◌, Option, none, some, length, ltb, if◌then◌else◌,
}
use mongres.Bson.{BsonApi}
use mongres.Common.{Result, ok, err, ◌>>=◌, ProxyError, proxy_error, ErrorKind}
use mongres.Common.Results.{traverse, transpose}
use mongres.Plan.{
  SelectPlan, InsertPlan, UpdatePlan, DeletePlan, StatementPlan, select, insert, update, delete,
}
use mongres.Executor.Outcome.{WriteOutcome, no_writes}
use mongres.TypePolicy.{invalid_input}
use mongres.Executor.{filter_document, predicate_document, projection_document}
use mongres.Executor.Insert.{build_insert_document}
use mongres.Executor.Update.{update_document}

module _ (api : BsonApi) where
  open api use {Document}

  -- What the executor calls of the `mongodb` crate, each with the name of the collection.
  pub record Driver : Type 1 where
    pub World : Type 0
    pub find :
        String
        → Document
        → Option Document
        → Option ℕ
        → World
        → Result String (List Document) × World
    pub insert_one : String → Document → World → Result String (Unit {0}) × World
    -- the number of inserted identifiers
    pub insert_many : String → List Document → World → Result String ℕ × World
    -- the matched and the modified count
    pub update_many : String → Document → Document → World → Result String (ℕ × ℕ) × World
    pub delete_many : String → Document → World → Result String ℕ × World

-- `database_error`
abbrev pub database_error : String → ProxyError
database_error e = proxy_error ErrorKind.database (String.◌++◌ "MongoDB operation failed: " e)

-- `write_error`
abbrev pub write_error : String → ProxyError
write_error e = proxy_error ErrorKind.database (
    String.◌++◌
      "MongoDB write failed and may have partially applied; inspect the database before retrying: "
      e)

-- `i64::try_from` of a `u64`
abbrev pub limit_in_range : ℕ → Result ProxyError ℕ
limit_in_range n =
    if ltb n (2 ^ 63)
    then ok n
    else err (invalid_input "SELECT limit exceeds the MongoDB driver range")

module _ {W : Type 0} {A B : Type 0} where
  -- A step that does not touch the world, then one that may.
  unfoldable pub before :
      Result ProxyError A → (A → W → Result ProxyError B × W) → W → Result ProxyError B × W
  before (ok a) f w = f a w
  before (err e) f w = (err e, w)

  -- `map_err` on the result of a driver's call, then the rest.
  unfoldable pub finish :
      (String → ProxyError) → (A → B) → Result String A × W → Result ProxyError B × W
  finish on_error f (ok a, w) = (ok (f a), w)
  finish on_error f (err e, w) = (err (on_error e), w)

module _ (api : BsonApi) (driver : Driver api) where
  open api use {Document}
  open driver use {World}

  -- `execute_select`
  unfoldable pub execute_select : SelectPlan → World → Result ProxyError (List Document) × World
  execute_select plan = before (filter_document api plan.filter) λ filter.
      before (projection_document api plan.projection) λ projection.
        before (transpose limit_in_range plan.limit) λ limit w.
          finish database_error (λ documents. documents)
            (driver.find plan.collection filter projection limit w)

  -- The part of `execute_insert` that calls the driver.
  unfoldable pub insert_documents :
      String → List Document → World → Result ProxyError WriteOutcome × World
  insert_documents collection [] w = (err (invalid_input "INSERT requires at least one row"), w)
  insert_documents collection (d ∷ []) w =
      finish write_error (λ done. record no_writes { inserted = 1 })
        (driver.insert_one collection d w)
  insert_documents collection (d ∷ e ∷ ds) w =
      finish write_error (λ n. record no_writes { inserted = n })
        (driver.insert_many collection (d ∷ e ∷ ds) w)

  -- `execute_insert`
  unfoldable pub execute_insert : InsertPlan → World → Result ProxyError WriteOutcome × World
  unfolding insert_documents
  execute_insert plan =
      before (traverse (build_insert_document api plan.columns) plan.rows)
        (insert_documents plan.collection)

  -- `execute_update`
  unfoldable pub execute_update : UpdatePlan → World → Result ProxyError WriteOutcome × World
  execute_update plan = before (predicate_document api plan.filter) λ filter.
      before (update_document api plan.assignments) λ set w.
        finish write_error (λ counts. record no_writes { matched = counts.0; modified = counts.1 })
          (driver.update_many plan.collection filter set w)

  -- `execute_delete`
  unfoldable pub execute_delete : DeletePlan → World → Result ProxyError WriteOutcome × World
  execute_delete plan = before (predicate_document api plan.filter) λ filter w.
      finish write_error (λ n. record no_writes { deleted = n })
        (driver.delete_many plan.collection filter w)

  -- `execute_write`
  unfoldable pub execute_write : StatementPlan → World → Result ProxyError WriteOutcome × World
  unfolding execute_insert execute_update execute_delete
  execute_write (insert plan) w = execute_insert plan w
  execute_write (update plan) w = execute_update plan w
  execute_write (delete plan) w = execute_delete plan w
  execute_write (select plan) w = (
    err (proxy_error ErrorKind.feature_not_supported "SELECT plans must use the read executor"),
    w,
  )

  -- `execute_read_only`
  unfoldable pub execute_read_only :
      StatementPlan → World → Result ProxyError (List Document) × World
  unfolding execute_select
  execute_read_only (select plan) w = execute_select plan w
  execute_read_only plan w = (
    err (proxy_error ErrorKind.feature_not_supported "write execution is not implemented yet"),
    w,
  )
