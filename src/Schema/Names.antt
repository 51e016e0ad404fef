-- ===== src/Schema/Names.antt =====
-- `validated_collection_names` of crates/schema-discovery/src/lib.rs; an error is its text.
pub mod Accepted
use Prim.Native.String
use mongres.Prelude.{String, Bool, not, List, [], ◌∷◌, if◌then◌else◌}
use mongres.Order.{◌=ₖ◌}
use mongres.Order.Text.{text_ord}
use mongres.Text.{is_empty, trim}
use mongres.BTree.{add, contains}
use mongres.Common.{Result, ok, err}

-- `METADATA_COLLECTION`
abbrev pub metadata_collection : String
metadata_collection = "__pgproxy_schema"

-- The loop of `validated_collection_names` over the configured names.
unfoldable pub collect_collection_names : List String → List String → Result String (List String)
collect_collection_names names [] = ok names
collect_collection_names names (n ∷ rest) =
    let collected = collect_collection_names (add n names) rest in
    if is_empty (trim n)
    then err "MongoDB collection names must not be empty"
    else if not (n =ₖ trim n)
    then err (
        String.◌++◌ "MongoDB collection name '"
          (String.◌++◌ n "' must not have leading or trailing whitespace"))
    else if n =ₖ metadata_collection
    then err (
        String.◌++◌ "'" (
          String.◌++◌ metadata_collection
            "' is reserved for schema metadata and cannot be exposed as a SQL table"))
    else if contains n names
    then err (String.◌++◌ "duplicate configured MongoDB collection: '" (String.◌++◌ n "'"))
    else collected

-- `validated_collection_names`
unfoldable pub validated_collection_names : List String → Result String (List String)
unfolding collect_collection_names
validated_collection_names [] = err "at least one MongoDB collection must be configured"
validated_collection_names (n ∷ rest) = collect_collection_names [] (n ∷ rest)
