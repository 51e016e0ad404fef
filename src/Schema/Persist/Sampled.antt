-- ===== src/Schema/Persist/Sampled.antt =====
-- What a discovery samples.
use mathlib.Core.List.{append-nil, append_assoc}
use mongres.Prelude.{
  ℕ, zero, suc, ◌+◌, ◌<◌, String, List, [], ◌∷◌, ◌++◌, take, map, length, length-append, ◌==◌,
  false, ◌≡◌, refl, sym, ap, arith,
}
use mongres.Common.{Result, ok}
use mongres.Schema.Sample.{SampleDocument}
use mongres.Schema.Infer.{infer}
use mongres.Schema.Persist.{
  BsonDocument, sample_document_from_bson, Database, and_then, sample_cursor, discover_collection,
}

-- The answers of a cursor that does not fail.
abbrev pub answers : List BsonDocument → List (Result String BsonDocument)
answers = map (λ d. ok d)

-- With `suc n` places left, the loop takes as many documents more.
sample_cursor-answers :
    (size n : ℕ) (sampled : List SampleDocument) (documents : List BsonDocument)
    → size ≡ length sampled + suc n
    → sample_cursor size sampled (answers documents)
      ≡ ok (sampled ++ map sample_document_from_bson (take (suc n) documents))
unfolding sample_cursor
sample_cursor-answers size n sampled [] h = ap ok (sym (append-nil sampled))
sample_cursor-answers size zero sampled (d ∷ documents) h =
    ground (arith, length-append sampled (sample_document_from_bson d ∷ []))
sample_cursor-answers size (suc n) sampled (d ∷ documents) h = ground (
  arith,
  length-append sampled (sample_document_from_bson d ∷ []),
  sample_cursor-answers size n (sampled ++ sample_document_from_bson d ∷ []) documents,
  append_assoc sampled (sample_document_from_bson d ∷ [])
      (map sample_document_from_bson (take (suc n) documents)),
)

-- When the cursor does not fail, `discover_collection` with a sample size above zero gives the inference
-- of the first documents of the collection, as many as the sample size, and only reads.
pub discover_collection-infer :
    (database : Database) (collection : String) (size : ℕ) (documents : List BsonDocument)
    (w w' : database.World)
    → 0 < size
    → database.find collection w ≡ (ok (answers documents), w')
    → discover_collection database collection size w
      ≡ (ok (infer (map sample_document_from_bson (take size documents))), w')
unfolding discover_collection and_then
discover_collection-infer database collection zero documents w w' positive found =
    absurd (omega arith)
discover_collection-infer database collection (suc n) documents w w' positive found =
    let some_asked : (suc n == 0) ≡ false = ground arith in
    rw (some_asked, found, sample_cursor-answers (suc n) n [] documents (omega arith)) refl
