-- ===== src/Tests/Persist.antt =====
-- Discovery and persisted profiles at a concrete database: one collection of documents, and the records
-- of the metadata by collection.
use mongres.Prelude.{
  String, true, List, [], ◌∷◌, take, map, some, ◌≡◌, ◌≢◌, ◌⊎◌, refl, sym, ap, arith,
}
use mongres.Order.Text.{text_ord}
use mongres.BTree.{insert, get}
use mongres.BTree.Lookup.{get-insert}
use mongres.Common.{err, ok}
use mongres.Common.Results.{ok_injective}
use mongres.Schema.{SchemaProfile}
use mongres.Schema.Infer.{infer}
use mongres.Schema.Names.{validated_collection_names}
use mongres.Schema.Persist.{
  BsonDocument, BsonValue, StoredSchemaProfile, Database, sample_document_from_bson, and_then,
  discover_collection, discover_and_persist_collections, load_required_persisted_profiles,
}
use mongres.Schema.Persist.RoundTrip.{
  IsDatabase, FailsAt, load_required_persisted_profiles-discovered,
}
use mongres.Schema.Persist.Sampled.{answers, discover_collection-infer}

-- { "age": true }, { "age": "x", "a": { } } and { }
abbrev documents : List BsonDocument
documents =
    BsonDocument.entry "age" (BsonValue.boolean true) BsonDocument.end
    ∷ BsonDocument.entry "age" (BsonValue.string "x")
        (BsonDocument.entry "a" (BsonValue.document BsonDocument.end) BsonDocument.end)
    ∷ BsonDocument.end
    ∷ []

abbrev Records : Type 0
Records = List (String × StoredSchemaProfile)

abbrev database : Database
database = record {
  World = Records;
  Record = StoredSchemaProfile;
  name = "app";
  find = λ c w. (ok (answers documents), w);
  replace_one = λ m n k r w. (ok tt, insert k r w);
  find_one = λ m n k w. (ok (get k w), w);
  to_document = λ s. ok s;
  from_document = λ s. ok s;
}

get-insert_same :
    (k : String) (r : StoredSchemaProfile) (w : Records) → get k (insert k r w) ≡ some r
get-insert_same k r w = ground (arith, get-insert k k r w, text_ord.cmp_refl k)

get-insert_other :
    (n k : String) (r : StoredSchemaProfile) (w : Records) → k ≢ n → get k (insert n r w) ≡ get k w
get-insert_other n k r w other = ground (arith, get-insert k n r w, text_ord.eq_of_cmp k n)

database-IsDatabase : IsDatabase database
database-IsDatabase = record {
  stored = get;
  stored-find = λ c k w. refl;
  stored-find_one = λ n k w. refl;
  find_one-ok = λ n w r h. sym (ok_injective h);
  stored-replace_one = λ n r w done. get-insert_same n r w;
  stored-replace_other = λ n k r w other. get-insert_other n k r w other;
  from_document-to_document = λ s r h. ap ok (sym (ok_injective h));
}

abbrev sampled : SchemaProfile
sampled = infer (map sample_document_from_bson (take 2 documents))

abbrev record_of : String → StoredSchemaProfile
record_of n = record { database = "app"; collection = n; profile = sampled }

abbrev discovered : List (String × SchemaProfile)
discovered = ("orders", sampled) ∷ ("users", sampled) ∷ []

abbrev persisted : Records
persisted = ("orders", record_of "orders") ∷ ("users", record_of "users") ∷ []

discovery :
    discover_and_persist_collections database ("users" ∷ "orders" ∷ []) 2 []
    ≡ (ok discovered, persisted)
unfolding discover_and_persist_collections and_then validated_collection_names mongres.Text.is_empty
    mongres.Text.trim mongres.BTree.contains mongres.BTree.add insert
discovery = refl

load_required_persisted_profiles-discovered_example :
    ((load_required_persisted_profiles database ("users" ∷ "orders" ∷ []) persisted).0
      ≡ ok discovered)
    ⊎ ((validated : List String) × (e : String) × (validated_collection_names
            ("users" ∷ "orders" ∷ [])
          ≡ ok validated)
        × FailsAt database database-IsDatabase validated persisted e
        × ((load_required_persisted_profiles database ("users" ∷ "orders" ∷ []) persisted).0
            ≡ err e))
load_required_persisted_profiles-discovered_example =
    load_required_persisted_profiles-discovered database database-IsDatabase
      ("users" ∷ "orders" ∷ []) 2 [] persisted discovered discovery

discover_collection-infer_example :
    discover_collection database "users" 2 []
    ≡ (ok (infer (map sample_document_from_bson (take 2 documents))), [])
discover_collection-infer_example =
    discover_collection-infer database "users" 2 documents [] [] (omega arith) refl
