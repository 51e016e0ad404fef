-- ===== src/Schema.antt =====
-- crates/schema-discovery/src/lib.rs: field paths, observed types and shapes, field profiles and the
-- profile of a collection. The inference and the dotted-key marks are in Schema/Infer.antt, the
-- allowlist of collections in Schema/Names.antt, and the persisted profiles in Schema/Persist.antt.
pub mod Path
pub mod Observed
pub mod Sample
pub mod Infer
pub mod Names
pub mod Persist
unfoldable pub use Path.*
unfoldable pub use Observed.*
use mongres.Prelude.{
  ℕ, Bool, true, false, ◌||◌, ltb, List, [], ◌∷◌, Option, none, some, length, if◌then◌else◌,
}
use mongres.Order.{◌=ₖ◌}
use mongres.Order.Derived.{list_ord}
use mongres.Order.Text.{text_ord}

pub record FieldProfile : Type 0 where
  pub path : FieldPath
  pub present_documents : ℕ
  pub missing_documents : ℕ
  pub observed_types : List ObservedType
  pub observed_shapes : List ObservedShape
  pub has_dotted_key_collision : Bool

-- `FieldProfile::is_ambiguous`
unfoldable pub is_ambiguous : FieldProfile → Bool
is_ambiguous f =
    ltb 1 (length f.observed_types)
    || (ltb 1 (length f.observed_shapes) || f.has_dotted_key_collision)

pub record SchemaProfile : Type 0 where
  pub profile_version : ℕ
  pub sampled_documents : ℕ
  pub fields : List FieldProfile

-- `iter().find(|field| field.path == *path)`
unfoldable pub find_field : FieldPath → List FieldProfile → Option FieldProfile
find_field p [] = none
find_field p (f ∷ fs) = if f.path =ₖ p then some f else find_field p fs

-- `SchemaProfile::field`
unfoldable pub field : SchemaProfile → FieldPath → Option FieldProfile
unfolding find_field
field schema p = find_field p schema.fields
