-- ===== src/Schema/Infer/Collisions.antt =====
-- Which fields `mark_dotted_key_collisions` marks.
use mongres.Prelude.{
  ℕ, ◌+◌, String, ltb, List, [], ◌∷◌, Option, none, some, map, ◌≡◌, refl, arith, ap, ◌∙◌,
  if◌then◌else◌,
}
use mongres.Order.{◌=ₖ◌, =ₖ_sound}
use mongres.Order.Text.{text_ord}
use mongres.BTree.{insert, get}
use mongres.BTree.Lookup.{get-insert}
use mongres.Schema.{FieldProfile, SchemaProfile, display_name}
use mongres.Schema.Infer.{
  or_default, count_names, is_shared, mark_fields, mark_dotted_key_collisions,
}

-- How many of the fields have the display name.
abbrev pub occurrences : String → List FieldProfile → ℕ
occurrences name [] = 0
occurrences name (f ∷ fs) = (if name =ₖ display_name f.path then 1 else 0) + occurrences name fs

-- The field, marked if its display name occurs twice.
abbrev pub marked : List FieldProfile → FieldProfile → FieldProfile
marked all f = record f { has_dotted_key_collision = ltb 1 (occurrences (display_name f.path) all) }

get-count_names :
    (name : String) (fs : List FieldProfile) (counts : List (String × ℕ))
    → or_default 0 (get name (count_names counts fs))
      ≡ or_default 0 (get name counts) + occurrences name fs
unfolding count_names
get-count_names name [] counts = omega arith
get-count_names name (f ∷ fs) counts =
    let other = display_name f.path in
    let n = or_default 0 (get other counts) + 1 in
    ground (
      arith,
      get-count_names name fs (insert other n counts),
      get-insert name other n counts,
      =ₖ_sound name other,
    )

is_shared-or_default : (o : Option ℕ) → is_shared o ≡ ltb 1 (or_default 0 o)
is_shared-or_default none = refl
is_shared-or_default (some n) = refl

counted_from_none :
    (name : String) (fs : List FieldProfile)
    → or_default 0 (get name (count_names [] fs)) ≡ occurrences name fs
unfolding get
counted_from_none name fs = omega (arith, get-count_names name fs [])

mark_fields_lem :
    (all fs : List FieldProfile) → mark_fields (count_names [] all) fs ≡ map (marked all) fs
unfolding mark_fields
mark_fields_lem all [] = refl
mark_fields_lem all (f ∷ fs) =
    let name = display_name f.path in
    let counted : is_shared (get name (count_names [] all)) ≡ ltb 1 (occurrences name all) =
      is_shared-or_default (get name (count_names [] all))
      ∙ ap (ltb 1) (counted_from_none name all) in
    rw (counted, mark_fields_lem all fs) refl

-- The pass keeps every field and its order, and marks a field exactly if another field has the same
-- display name, that is, if at least two fields of the profile have it.
pub mark_dotted_key_collisions_lem :
    (s : SchemaProfile) → (mark_dotted_key_collisions s).fields ≡ map (marked s.fields) s.fields
unfolding mark_dotted_key_collisions
mark_dotted_key_collisions_lem s = mark_fields_lem s.fields s.fields
