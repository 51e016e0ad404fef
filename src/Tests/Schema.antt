-- ===== src/Tests/Schema.antt =====
-- Schema inference and texts at concrete inputs.
use mongres.Prelude.{refl, ◌≡◌, ◌≤◌, List, [], ◌∷◌, map, ◌↔◌, some}
use mongres.Prelude.Int.{pos, InI64}
use mongres.Order.Text.{text_ord}
use mongres.Text.Decimal.{to_string}
use mongres.Policy.Candidates.{parse_integer_losslessly}
use mongres.Policy.Candidates.Allowed.{parse_integer_losslessly_iff}
use mongres.Schema.{field}
use mongres.Schema.Sample.{SampleDocument, end}
use mongres.Schema.Infer.{infer, mark_dotted_key_collisions}
use mongres.Schema.Infer.Collisions.{marked, mark_dotted_key_collisions_lem}
use mongres.Schema.Infer.Counts.{Counted, documents_with, HasDistinctNames, field-infer-Counted}
use mongres.BTree.{contains}
use mongres.BTree.Sorted.{IsSorted}
use mongres.Order.Text.{text_ord}
use mongres.Schema.Names.{validated_collection_names}
use mongres.Schema.Names.Accepted.{IsExposable, validated_collection_names-ok}
use mongres.Prelude.{◌≢◌, All, String, length}
use mongres.Common.{ok}
use mongres.Plan.{SqlValue}
use mongres.Schema.{FieldProfile}
use mongres.TypePolicy.{validate_write_value}
use mongres.TypePolicy.Writes.{Admits, validate_write_value_iff}
use mongres.Tests.Data.{users, document, name_path}

abbrev documents : List SampleDocument
documents = document ∷ end ∷ []

field-infer-Counted_example :
    Counted 2 1 (field (infer documents) ("address" ∷ "city" ∷ []))
    × (documents_with documents "address" ("city" ∷ []) ≤ 2)
unfolding HasDistinctNames mongres.Schema.Infer.Visits.fields_at
field-infer-Counted_example =
    field-infer-Counted documents "address" ("city" ∷ [])
      ((refl, (refl, tt, tt), (refl, tt, tt)), (tt, tt))

mark_dotted_key_collisions_lem_example :
    (mark_dotted_key_collisions users).fields ≡ map (marked users.fields) users.fields
mark_dotted_key_collisions_lem_example = mark_dotted_key_collisions_lem users

parse_integer_losslessly_iff_example :
    (parse_integer_losslessly "42" ≡ some (pos 42)) ↔ (("42" ≡ to_string (pos 42)) × InI64 (pos 42))
parse_integer_losslessly_iff_example = parse_integer_losslessly_iff "42" (pos 42)

abbrev names : List String
names = "users" ∷ "orders" ∷ []

abbrev sorted_names : List String
sorted_names = "orders" ∷ "users" ∷ []

validated_collection_names-ok_example :
    (names ≢ [])
    × All IsExposable names
    × IsSorted sorted_names
    × ((k : String) → contains k sorted_names ≡ contains k names)
    × (length sorted_names ≡ length names)
unfolding validated_collection_names mongres.Text.is_empty mongres.Text.trim contains
    mongres.BTree.add
validated_collection_names-ok_example = validated_collection_names-ok names sorted_names refl

validate_write_value_iff_example :
    (validate_write_value name_path (SqlValue.string "bob") users ≡ ok tt)
    ↔ ((f : FieldProfile) × (field users name_path ≡ some f) × Admits f (SqlValue.string "bob"))
validate_write_value_iff_example =
    validate_write_value_iff name_path (SqlValue.string "bob") users (λ h. cc) refl
