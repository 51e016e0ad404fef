-- ===== src/Executor/Run/Validated.antt =====
-- When the executor leaves the database alone.
use mongres.Prelude.{String, List, [], ◌∷◌, ◌≡◌, ◌≢◌, refl}
use mongres.Bson.{BsonApi}
use mongres.Common.{Result, ok, err, ProxyError, ErrorKind}
use mongres.Plan.{StatementPlan, select, insert, update, delete}
use mongres.Executor.Run.{
  Driver, before, finish, insert_documents, execute_insert, execute_update, execute_delete,
  execute_write, write_error,
}

-- A step leaves the world as it was whenever it fails with another kind than `database`.
unfoldable pub LeavesAlone : {W B : Type 0} → Result ProxyError B × W → W → Type 0
LeavesAlone (ok b, w') w = Unit
LeavesAlone (err e, w') w = e.kind ≢ ErrorKind.database → w' ≡ w

pub before-LeavesAlone :
    {W A B : Type 0} (m : Result ProxyError A) (f : A → W → Result ProxyError B × W) (w : W)
    → ((a : A) → LeavesAlone (f a w) w)
    → LeavesAlone (before m f w) w
unfolding LeavesAlone before
before-LeavesAlone (ok a) f w h = h a
before-LeavesAlone (err e) f w h = λ k. refl

finish-LeavesAlone :
    {W A B : Type 0} (f : A → B) (r : Result String A × W) (w : W)
    → LeavesAlone (finish write_error f r) w
unfolding LeavesAlone finish
finish-LeavesAlone f (ok a, w') w = tt
finish-LeavesAlone f (err e, w') w = λ k. absurd (k refl)

module _ (api : BsonApi) (driver : Driver api) where
  open api use {Document}
  open driver use {World}

  insert_documents-LeavesAlone :
      (collection : String) (ds : List Document) (w : World)
      → LeavesAlone (insert_documents api driver collection ds w) w
  unfolding insert_documents
  insert_documents-LeavesAlone collection [] w = unfold LeavesAlone in (λ k. refl)
  insert_documents-LeavesAlone collection (d ∷ []) w =
      finish-LeavesAlone _ (driver.insert_one collection d w) w
  insert_documents-LeavesAlone collection (d ∷ e ∷ ds) w =
      finish-LeavesAlone _ (driver.insert_many collection (d ∷ e ∷ ds) w) w

  -- A write that fails with another kind of error than `database` has left the world as it was.
  pub execute_write-LeavesAlone :
      (plan : StatementPlan) (w : World) → LeavesAlone (execute_write api driver plan w) w
  unfolding execute_write execute_insert execute_update execute_delete
  execute_write-LeavesAlone (select plan) w = unfold LeavesAlone in (λ k. refl)
  execute_write-LeavesAlone (insert plan) w =
      before-LeavesAlone _ _ w (λ ds. insert_documents-LeavesAlone plan.collection ds w)
  execute_write-LeavesAlone (update plan) w =
      before-LeavesAlone _ _ w
        (λ filter. before-LeavesAlone _ _ w (λ set. finish-LeavesAlone _ _ w))
  execute_write-LeavesAlone (delete plan) w =
      before-LeavesAlone _ _ w (λ filter. finish-LeavesAlone _ _ w)
