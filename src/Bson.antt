-- ===== src/Bson.antt =====
-- The `bson` crate's `Bson` and `Document`, as far as the executor uses them: an interface, since the
-- crate is not part of the repository. A document maps names to values; `insert` sets one name.
pub mod Concrete
use mongres.Prelude.{String, Bool, List, Option, none, some, ◌≡◌, if◌then◌else◌}
use mongres.Prelude.Int.{ℤ}
use mongres.F64.{F64}
use mongres.Order.{◌=ₖ◌}
use mongres.Order.Text.{text_ord}

pub record BsonApi : Type 1 where
  pub Bson : Type 0
  pub Document : Type 0
  pub null : Bson
  pub boolean : Bool → Bson
  pub int32 : ℤ → Bson
  pub int64 : ℤ → Bson
  pub double : F64 → Bson
  pub string : String → Bson
  pub array : List Bson → Bson
  pub document : Document → Bson
  -- `Bson::Document(nested)` as a pattern
  pub as_document : Bson → Option Document
  -- `Document::new`, `Document::insert`, `Document::get`
  pub empty : Document
  pub insert : String → Bson → Document → Document
  pub get : String → Document → Option Bson
  pub get-empty : (k : String) → get k empty ≡ none
  pub get-insert :
      (j k : String) (v : Bson) (d : Document)
      → get j (insert k v d) ≡ (if j =ₖ k then some v else get j d)
  pub as_document-document : (d : Document) → as_document (document d) ≡ some d
  -- The scalars are no documents.
  pub as_document-null : as_document null ≡ none
  pub as_document-boolean : (b : Bool) → as_document (boolean b) ≡ none
  pub as_document-int64 : (n : ℤ) → as_document (int64 n) ≡ none
  pub as_document-double : (x : F64) → as_document (double x) ≡ none
  pub as_document-string : (s : String) → as_document (string s) ≡ none
