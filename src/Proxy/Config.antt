-- ===== src/Proxy/Config.antt =====
-- The configured collections of crates/proxy/src/lib.rs, with the texts of the two settings as arguments.
use Prim.Native.String
use mongres.Prelude.{String, not, List, [], ◌∷◌, Option, none, some, map, if◌then◌else◌}
use mongres.Text.{is_empty, trim, split_char}
use mongres.Common.{Result, ok, err, ◌>>=◌, ProxyError, proxy_error, ErrorKind}
use mongres.Common.Results.{ok_or}
use mongres.TypePolicy.{invalid_input}
use mongres.Schema.Names.{validated_collection_names}

-- `dependency_error`
unfoldable pub dependency_error : String → String → ProxyError
dependency_error action error =
    proxy_error ErrorKind.dependency
      (String.◌++◌ "failed to " (String.◌++◌ action (String.◌++◌ ": " error)))

-- The comma has the code 44.
unfoldable pub listed_names : Option String → Option String → Result ProxyError (List String)
unfolding is_empty trim split_char
listed_names none legacy = do
  name ← ok_or legacy (
      invalid_input
        "required environment variable is missing: MONGO_COLLECTION or MONGO_COLLECTIONS")
  ok (name ∷ [])
listed_names (some value) legacy = ok (map trim (split_char 44 value))

-- `configured_list.filter(…)`
abbrev pub not_blank : Option String → Option String
not_blank none = none
not_blank (some value) = if not (is_empty (trim value)) then some value else none

-- `map_err` on the validated names
abbrev pub validated : Result String (List String) → Result ProxyError (List String)
validated (ok names) = ok names
validated (err e) = err (dependency_error "validate configured MongoDB collections" e)

-- `parse_configured_collection_names`
unfoldable pub parse_configured_collection_names :
    Option String → Option String → Result ProxyError (List String)
unfolding listed_names
parse_configured_collection_names configured legacy = do
  collections ← listed_names (not_blank configured) legacy
  validated (validated_collection_names collections)
