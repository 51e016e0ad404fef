-- ===== src/Schema/Infer.antt =====
-- `SchemaProfile::infer`, `observe_value` and `mark_dotted_key_collisions` of
-- crates/schema-discovery/src/lib.rs. The map of observations is passed from call to call.
pub mod Collisions
pub mod Visits
pub mod Added
pub mod Counts
use mongres.Prelude.{
  ℕ, ◌+◌, ◌-◌, String, Bool, true, false, ltb, List, [], ◌∷◌, Option, none, some, length, map,
}
use mongres.Order.Derived.{list_ord}
use mongres.Order.Text.{text_ord}
use mongres.BTree.{insert, get, add}
use mongres.Schema.{
  FieldPath, child, top_level, display_name, ObservedType, ObservedShape, FieldProfile,
  SchemaProfile, type_ord, shape_ord,
}
use mongres.Schema.Sample.{
  SampleValue, SampleDocument, document, end, entry, observed_type, observed_shape,
}

pub record MutableFieldProfile : Type 0 where
  pub present_documents : ℕ
  pub observed_types : List ObservedType
  pub observed_shapes : List ObservedShape

abbrev pub Observations : Type 0
Observations = List (FieldPath × MutableFieldProfile)

-- `MutableFieldProfile::default()`
abbrev pub empty_profile : MutableFieldProfile
empty_profile = record { present_documents = 0; observed_types = []; observed_shapes = [] }

-- `entry(key).or_default()`, as a value
abbrev pub or_default {ℓ} : {A : Type ℓ} → A → Option A → A
or_default d none = d
or_default d (some a) = a

-- The entry of a path after one more value has been seen there.
unfoldable pub observe_entry : SampleValue → MutableFieldProfile → MutableFieldProfile
observe_entry v e = record {
  present_documents = e.present_documents + 1;
  observed_types = add (observed_type v) e.observed_types;
  observed_shapes = add (observed_shape v) e.observed_shapes;
}

unfoldable pub observe_at : Observations → FieldPath → SampleValue → Observations
unfolding observe_entry
observe_at m p v = insert p (observe_entry v (or_default empty_profile (get p m))) m

-- `observe_value`: the value, and below a document its entries.
unfoldable mutual
  pub observe_value : Observations → FieldPath → SampleValue → Observations
  observe_value m p (document d) = observe_fields (observe_at m p (document d)) p d
  observe_value m p v = observe_at m p v

  pub observe_fields : Observations → FieldPath → SampleDocument → Observations
  observe_fields m p end = m
  observe_fields m p (entry name v d) = observe_fields (observe_value m (child p name) v) p d

-- The loop of `infer` over one document's fields.
unfoldable pub observe_document : Observations → SampleDocument → Observations
observe_document m end = m
observe_document m (entry name v d) = observe_document (observe_value m (top_level name) v) d

-- The loop of `infer` over the documents.
unfoldable pub observe_documents : Observations → List SampleDocument → Observations
unfolding observe_document
observe_documents m [] = m
observe_documents m (d ∷ ds) = observe_documents (observe_document m d) ds

abbrev pub profile_of : ℕ → FieldPath × MutableFieldProfile → FieldProfile
profile_of documents e = record {
  path = e.0;
  present_documents = e.1.present_documents;
  missing_documents = documents - e.1.present_documents;
  observed_types = e.1.observed_types;
  observed_shapes = e.1.observed_shapes;
  has_dotted_key_collision = false;
}

-- The fold of `mark_dotted_key_collisions` over the display names.
unfoldable pub count_names : List (String × ℕ) → List FieldProfile → List (String × ℕ)
count_names counts [] = counts
count_names counts (f ∷ fs) =
    let name = display_name f.path in
    count_names (insert name (or_default 0 (get name counts) + 1) counts) fs

-- `is_some_and(|count| *count > 1)`
abbrev pub is_shared : Option ℕ → Bool
is_shared none = false
is_shared (some n) = ltb 1 n

unfoldable pub mark_fields : List (String × ℕ) → List FieldProfile → List FieldProfile
mark_fields counts [] = []
mark_fields counts (f ∷ fs) =
    record f { has_dotted_key_collision = is_shared (get (display_name f.path) counts) }
    ∷ mark_fields counts fs

-- `mark_dotted_key_collisions`
unfoldable pub mark_dotted_key_collisions : SchemaProfile → SchemaProfile
unfolding count_names mark_fields
mark_dotted_key_collisions s = record s { fields = mark_fields (count_names [] s.fields) s.fields }

-- `SchemaProfile::infer`
unfoldable pub infer : List SampleDocument → SchemaProfile
unfolding observe_documents mark_dotted_key_collisions
infer documents = mark_dotted_key_collisions (record {
  profile_version = 1;
  sampled_documents = length documents;
  fields = map (profile_of (length documents)) (observe_documents [] documents);
})
