-- ===== src/Schema/Persist.antt =====
-- Discovery and the persisted profiles in crates/schema-discovery/src/lib.rs: `discover_collection`,
-- `persist_profile`, `load_persisted_profile` and their loops over the configured collections. The
-- database is an interface whose calls act on a world, and an error is its text.
pub mod RoundTrip
pub mod Sampled
use Prim.Native.Nat.{Ordering}
use Prim.Native.String
use mongres.Prelude.{
  ℕ, zero, String, Bool, List, [], ◌∷◌, ◌++◌, Option, none, some, length, ◌==◌, if◌then◌else◌,
}
use mongres.Prelude.Int.{ℤ}
use mongres.F64.{F64}
use mongres.Common.{Result, ok, err, ◌>>=◌}
use mongres.Common.Results.{ok_or}
use mongres.Order.Text.{text_ord}
use mongres.BTree.{insert}
use mongres.Schema.{SchemaProfile}
use mongres.Schema.Sample.{SampleValue, SampleDocument, SampleValues}
use mongres.Schema.Infer.{infer}
use mongres.Schema.Names.{metadata_collection, validated_collection_names}

-- `Bson` of the bson crate by the cases that the conversion tells apart: a date and an identifier carry
-- their `to_string`, and so does every value of another type.
mutual
  pub data BsonValue : Type 0 where
    null : BsonValue
    boolean : Bool → BsonValue
    int32 int64 : ℤ → BsonValue
    double : F64 → BsonValue
    string date_time object_id other : String → BsonValue
    document : BsonDocument → BsonValue
    array : BsonValues → BsonValue

  -- `bson::Document`, its entries in the order of iteration
  pub data BsonDocument : Type 0 where
    end : BsonDocument
    entry : String → BsonValue → BsonDocument → BsonDocument

  pub data BsonValues : Type 0 where
    nil : BsonValues
    cons : BsonValue → BsonValues → BsonValues

-- `BTreeMap::insert` into a sampled document
unfoldable pub insert_entry : String → SampleValue → SampleDocument → SampleDocument
insert_entry k v SampleDocument.end = SampleDocument.entry k v SampleDocument.end
insert_entry k v (SampleDocument.entry j w d) = elim (text_ord.cmp k j) [
  | Ordering.lt ↦ SampleDocument.entry k v (SampleDocument.entry j w d)
  | Ordering.eq ↦ SampleDocument.entry k v d
  | Ordering.gt ↦ SampleDocument.entry j w (insert_entry k v d)
]

-- `sample_value_from_bson`, with the `collect` of `sample_document_from_bson` and that of an array
unfoldable mutual
  unfolding insert_entry

  pub sample_value_from_bson : BsonValue → SampleValue
  sample_value_from_bson null = SampleValue.null
  sample_value_from_bson (boolean b) = SampleValue.boolean b
  sample_value_from_bson (int32 i) = SampleValue.integer i
  sample_value_from_bson (int64 i) = SampleValue.integer i
  sample_value_from_bson (double x) = SampleValue.floating_point x
  sample_value_from_bson (string s) = SampleValue.string s
  sample_value_from_bson (date_time s) = SampleValue.date_time s
  sample_value_from_bson (object_id s) = SampleValue.object_id s
  sample_value_from_bson (other s) = SampleValue.string s
  sample_value_from_bson (document d) = SampleValue.document (collect_entries SampleDocument.end d)
  sample_value_from_bson (array vs) = SampleValue.array (collect_values vs)

  pub collect_entries : SampleDocument → BsonDocument → SampleDocument
  collect_entries sample end = sample
  collect_entries sample (entry key v d) =
      collect_entries (insert_entry key (sample_value_from_bson v) sample) d

  pub collect_values : BsonValues → SampleValues
  collect_values nil = SampleValues.nil
  collect_values (cons v vs) = SampleValues.cons (sample_value_from_bson v) (collect_values vs)

-- `sample_document_from_bson`
unfoldable pub sample_document_from_bson : BsonDocument → SampleDocument
unfolding collect_entries
sample_document_from_bson d = collect_entries SampleDocument.end d

pub record StoredSchemaProfile : Type 0 where
  pub database : String
  pub collection : String
  pub profile : SchemaProfile

-- What the crate calls of the `mongodb` crate on one database. A cursor is the list of what
-- `try_next` answers, and a record of the metadata is found by its database and collection fields.
pub record Database : Type 1 where
  pub World : Type 0
  pub Record : Type 0
  pub name : String
  pub find : String → World → Result String (List (Result String BsonDocument)) × World
  -- `replace_one` with `upsert(true)`: the metadata collection, the two fields and the record
  pub replace_one : String → String → String → Record → World → Result String (Unit {0}) × World
  pub find_one : String → String → String → World → Result String (Option Record) × World
  pub to_document : StoredSchemaProfile → Result String Record
  pub from_document : Record → Result String StoredSchemaProfile

-- `?` on an action
unfoldable pub and_then :
    {W A B : Type 0} → Result String A × W → (A → W → Result String B × W) → Result String B × W
and_then (ok a, w) next = next a w
and_then (err e, w) next = (err e, w)

-- The loop of `discover_collection` over the cursor.
unfoldable pub sample_cursor :
    ℕ
    → List SampleDocument
    → List (Result String BsonDocument)
    → Result String (List SampleDocument)
sample_cursor size documents [] = ok documents
sample_cursor size documents (err e ∷ cursor) = err e
sample_cursor size documents (ok d ∷ cursor) =
    let sampled = documents ++ sample_document_from_bson d ∷ [] in
    let rest = sample_cursor size sampled cursor in
    if length sampled == size then ok sampled else rest

-- `map(from_document).transpose()` and the profile of the record
abbrev pub profile_of_record :
    (Record : Type 0)
    → (Record → Result String StoredSchemaProfile)
    → Option Record
    → Result String (Option SchemaProfile)
profile_of_record Record from_document none = ok none
profile_of_record Record from_document (some r) = do
  stored ← from_document r
  ok (some stored.profile)

module _ (database : Database) where
  open database use {World}

  -- `discover_collection`
  unfoldable pub discover_collection : String → ℕ → World → Result String SchemaProfile × World
  unfolding sample_cursor infer
  discover_collection collection size w =
      if size == 0
      then (err "schema discovery sample size must be greater than zero", w)
      else and_then (database.find collection w)
          λ cursor w'. (sample_cursor size [] cursor >>= λ documents. ok (infer documents), w')

  -- `persist_profile`
  unfoldable pub persist_profile : String → SchemaProfile → World → Result String (Unit {0}) × World
  persist_profile collection profile w =
      and_then
        (
          database.to_document
              (record { database = database.name; collection = collection; profile = profile }),
          w,
        )
        λ r. database.replace_one metadata_collection database.name collection r

  -- `discover_and_persist_collection`
  unfoldable pub discover_and_persist_collection :
      String → ℕ → World → Result String SchemaProfile × World
  unfolding discover_collection persist_profile
  discover_and_persist_collection collection size w =
      and_then (discover_collection collection size w)
        λ profile w'. and_then (persist_profile collection profile w') λ done w''. (ok profile, w'')

  -- The loop of `discover_and_persist_collections`
  unfoldable pub discover_each :
      ℕ
      → List String
      → List (String × SchemaProfile)
      → World
      → Result String (List (String × SchemaProfile)) × World
  unfolding discover_and_persist_collection
  discover_each size [] profiles w = (ok profiles, w)
  discover_each size (n ∷ names) profiles w =
      and_then (discover_and_persist_collection n size w)
        λ profile w'. discover_each size names (insert n profile profiles) w'

  -- `discover_and_persist_collections`
  unfoldable pub discover_and_persist_collections :
      List String → ℕ → World → Result String (List (String × SchemaProfile)) × World
  unfolding discover_each
  discover_and_persist_collections names size w =
      and_then (validated_collection_names names, w)
        λ validated w'. discover_each size validated [] w'

  -- `load_persisted_profile`
  unfoldable pub load_persisted_profile :
      String → World → Result String (Option SchemaProfile) × World
  load_persisted_profile collection w =
      and_then (database.find_one metadata_collection database.name collection w)
        λ found w'. (profile_of_record database.Record database.from_document found, w')

  abbrev no_profile : String → String
  no_profile n =
      String.◌++◌ "no persisted schema profile for '"
        (String.◌++◌ n "'; run mongo-pg-schema-discovery first")

  -- The loop of `load_required_persisted_profiles`
  unfoldable pub load_each :
      List String
      → List (String × SchemaProfile)
      → World
      → Result String (List (String × SchemaProfile)) × World
  unfolding load_persisted_profile
  load_each [] profiles w = (ok profiles, w)
  load_each (n ∷ names) profiles w = and_then (load_persisted_profile n w) λ found w'.
      and_then (ok_or found (no_profile n), w')
        λ profile w''. load_each names (insert n profile profiles) w''

  -- `load_required_persisted_profiles`
  unfoldable pub load_required_persisted_profiles :
      List String → World → Result String (List (String × SchemaProfile)) × World
  unfolding load_each
  load_required_persisted_profiles names w =
      and_then (validated_collection_names names, w) λ validated w'. load_each validated [] w'
