-- ===== src/Executor.antt =====
-- crates/mongo-executor/src/lib.rs: typed plans to BSON documents. The filters and projections are
-- here, the documents of INSERT and UPDATE in Executor/Insert.antt and Executor/Update.antt, the
-- calls of the driver in Executor/Run.antt.
pub mod Outcome
pub mod Filters
pub mod Insert
pub mod Update
pub mod Run
use Prim.Native.String
use mongres.Prelude.{
  String, Bool, true, false, List, [], ◌∷◌, Option, none, some, map, if◌then◌else◌,
}
use mongres.Prelude.Int.{ℤ, pos}
use mongres.Bson.{BsonApi}
use mongres.Common.{Result, ok, err, ◌>>=◌, ProxyError, proxy_error, ErrorKind}
use mongres.Common.Results.{traverse}
use mongres.Schema.{FieldPath, display_name, is_literal_dotted_key}
use mongres.Plan.{
  SqlValue, ComparisonOperator, equal, not_equal, greater_than, greater_than_or_equal, less_than,
  less_than_or_equal, Predicate, Predicates, compare, in_list, is_null, and, or, nil, cons,
  Projection, ProjectedField,
}
use mongres.TypePolicy.{invalid_input}

abbrev pub literal_dotted : ProxyError
literal_dotted =
    proxy_error ErrorKind.feature_not_supported
      "literal dotted MongoDB field names require an aggregation implementation"

-- `mongo_field_name`
unfoldable pub mongo_field_name : FieldPath → Result ProxyError String
mongo_field_name path =
    if is_literal_dotted_key path then err literal_dotted else ok (display_name path)

module _ (api : BsonApi) where
  open api use {Bson, Document}

  -- `bson_value`
  unfoldable pub bson_value : SqlValue → Result ProxyError Bson
  bson_value SqlValue.null = ok api.null
  bson_value (SqlValue.boolean b) = ok (api.boolean b)
  bson_value (SqlValue.integer n) = ok (api.int64 n)
  bson_value (SqlValue.floating_point x) = ok (api.double x)
  bson_value (SqlValue.string s) = ok (api.string s)
  bson_value (SqlValue.placeholder p) = err (
      invalid_input (
        String.◌++◌ "parameter '"
          (String.◌++◌ p "' is not bound; prepared-statement binding is not implemented")))

  -- `single_field`
  abbrev pub single_field : String → Bson → Document
  single_field name value = api.insert name value api.empty

  -- `operator_field`
  abbrev pub operator_field : String → String → Bson → Document
  operator_field name operator value =
      single_field name (api.document (single_field operator value))

  -- `logical_document`
  abbrev pub logical_document : String → List Document → Result ProxyError Document
  logical_document operator [] =
      err (invalid_input "logical predicates must contain at least one condition")
  logical_document operator (d ∷ ds) =
      ok (single_field operator (api.array (map api.document (d ∷ ds))))

  abbrev pub comparison : ComparisonOperator → String → Bson → Document
  comparison equal name value = single_field name value
  comparison not_equal name value = operator_field name "$ne" value
  comparison greater_than name value = operator_field name "$gt" value
  comparison greater_than_or_equal name value = operator_field name "$gte" value
  comparison less_than name value = operator_field name "$lt" value
  comparison less_than_or_equal name value = operator_field name "$lte" value

  abbrev pub null_check : Bool → String → Document
  null_check true name = operator_field name "$ne" api.null
  null_check false name = single_field name api.null

  -- `predicate_document`
  unfoldable mutual
    pub predicate_document : Predicate → Result ProxyError Document
    predicate_document (compare path op value) = do
      name ← mongo_field_name path
      b ← bson_value value
      ok (comparison op name b)
    predicate_document (in_list path values negated) = do
      name ← mongo_field_name path
      bs ← traverse bson_value values
      ok (operator_field name (if negated then "$nin" else "$in") (api.array bs))
    predicate_document (is_null path negated) = do
      name ← mongo_field_name path
      logical_document "$and"
          (null_check negated name ∷ operator_field name "$exists" (api.boolean true) ∷ [])
    predicate_document (and ps) = do ds ← predicate_documents ps; logical_document "$and" ds
    predicate_document (or ps) = do ds ← predicate_documents ps; logical_document "$or" ds

    pub predicate_documents : Predicates → Result ProxyError (List Document)
    predicate_documents nil = ok []
    predicate_documents (cons p ps) = do
      d ← predicate_document p
      ds ← predicate_documents ps
      ok (d ∷ ds)

  -- `filter_document`
  unfoldable pub filter_document : Option Predicate → Result ProxyError Document
  filter_document none = ok api.empty
  filter_document (some p) = predicate_document p

  -- The loop of `projection_document`.
  unfoldable pub project_fields : Document → List ProjectedField → Result ProxyError Document
  project_fields d [] = ok d
  project_fields d (f ∷ fs) = do
    name ← mongo_field_name f.path
    project_fields (api.insert name (api.int32 (pos 1)) d) fs

  -- `projection_document`
  unfoldable pub projection_document : Projection → Result ProxyError (Option Document)
  unfolding project_fields
  projection_document Projection.all = ok none
  projection_document (Projection.fields fields) = do
    d ← project_fields api.empty fields
    ok (some d)
