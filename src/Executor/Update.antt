-- ===== src/Executor/Update.antt =====
-- `update_document`, `validate_update_path` and `paths_overlap` of crates/mongo-executor/src/lib.rs.
pub mod SetDocument
use Prim.Native.String
use mongres.Prelude.{
  String, Bool, true, false, ◌||◌, List, [], ◌∷◌, ◌++◌, length, min, take, any, if◌then◌else◌,
}
use mongres.Order.{◌=ₖ◌}
use mongres.Order.Derived.{list_ord}
use mongres.Order.Text.{text_ord}
use mongres.Text.{is_empty, starts_with_char}
use mongres.Bson.{BsonApi}
use mongres.Common.{Result, ok, err, ◌>>=◌, ◌>>◌, ProxyError}
use mongres.Schema.{FieldPath, display_name, segments}
use mongres.Plan.{AssignmentPlan}
use mongres.TypePolicy.{invalid_input}
use mongres.Executor.{mongo_field_name, bson_value, single_field}

-- `paths_overlap`
unfoldable pub paths_overlap : List String → List String → Bool
paths_overlap left right =
    let common_length = min (length left) (length right) in
    take common_length left =ₖ take common_length right

abbrev is_nil : List String → Bool
is_nil [] = true
is_nil (s ∷ ss) = false

-- `validate_update_path`
unfoldable pub validate_update_path : FieldPath → List (List String) → Result ProxyError (Unit {0})
unfolding paths_overlap
validate_update_path path assigned_paths =
    if is_nil (segments path) || any is_empty (segments path)
    then err (invalid_input "UPDATE field path cannot contain empty segments")
    else if any (starts_with_char b'$') (segments path)
    then err (invalid_input "UPDATE field path cannot contain MongoDB operator-like segments")
    else if any (paths_overlap (segments path)) assigned_paths
    then err (
        invalid_input (
          String.◌++◌ "UPDATE assignment path '"
            (String.◌++◌ (display_name path) "' conflicts with another assignment path")))
    else ok tt

module _ (api : BsonApi) where
  open api use {Document}

  -- The loop of `update_document`; `assigned_paths` grows at its end.
  unfoldable pub set_assignments :
      Document → List (List String) → List AssignmentPlan → Result ProxyError Document
  unfolding validate_update_path
  set_assignments set assigned_paths [] = ok set
  set_assignments set assigned_paths (a ∷ assignments) = do
    name ← mongo_field_name a.path
    validate_update_path a.path assigned_paths
    b ← bson_value api a.value
    set_assignments (api.insert name b set) (assigned_paths ++ segments a.path ∷ []) assignments

  -- `update_document`
  unfoldable pub update_document : List AssignmentPlan → Result ProxyError Document
  unfolding set_assignments
  update_document [] = err (invalid_input "UPDATE requires at least one assignment")
  update_document (a ∷ assignments) = do
    set ← set_assignments api.empty [] (a ∷ assignments)
    ok (single_field api "$set" (api.document set))
