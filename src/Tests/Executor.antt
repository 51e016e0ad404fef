-- ===== src/Tests/Executor.antt =====
-- The executor at concrete inputs, with documents as lists of fields.
use mongres.Prelude.{arith, false, refl, ◌≡◌, ◌≢◌, ◌↔◌, ◌⊎◌, true, List, [], ◌∷◌, length, String}
use mongres.Prelude.Int.{pos}
use mongres.Bson.Concrete.{concrete, Fields, end, field, Value}
use mongres.Common.{ok}
use mongres.Plan.{SqlValue, AssignmentPlan}
use mongres.Binding.Closed.{IsClosed}
use mongres.Executor.{predicate_document}
use mongres.Executor.Filters.{IsExpressible, predicate_document_iff}
use mongres.Executor.Insert.{build_insert_document}
use mongres.Executor.Insert.ReadBack.{ReadsBack, build_insert_document-ReadsBack}
use mongres.Executor.Insert.Total.{AreApart, IsInsertable, build_insert_document_total}
use mongres.Executor.Update.{paths_overlap, update_document}
use mongres.Executor.Update.SetDocument.{
  Begins, paths_overlap_iff, AreSettable, update_document-AreSettable,
}
use mongres.Tests.Data.{by_name, age}

predicate_document_iff_example :
    ((d : Fields) × (predicate_document concrete (by_name SqlValue.null) ≡ ok d))
    ↔ (IsClosed (by_name SqlValue.null) × IsExpressible (by_name SqlValue.null))
predicate_document_iff_example = predicate_document_iff concrete (by_name SqlValue.null)

paths_overlap_iff_example :
    (paths_overlap ("a" ∷ []) ("a" ∷ "b" ∷ []) ≡ true)
    ↔ (Begins ("a" ∷ []) ("a" ∷ "b" ∷ []) ⊎ Begins ("a" ∷ "b" ∷ []) ("a" ∷ []))
paths_overlap_iff_example = paths_overlap_iff ("a" ∷ []) ("a" ∷ "b" ∷ [])

abbrev columns : List (List String)
columns = ("address" ∷ "city" ∷ []) ∷ age ∷ ("address" ∷ "zip" ∷ []) ∷ []

abbrev row : List SqlValue
row = SqlValue.string "x" ∷ SqlValue.integer (pos 3) ∷ SqlValue.null ∷ []

abbrev inserted : Fields
inserted =
    field "address" (Value.document (field "city" (Value.string "x") (field "zip" Value.null end)))
      (field "age" (Value.int64 (pos 3)) end)

build_insert_document-ReadsBack_example :
    (length columns ≡ length row) × ReadsBack concrete inserted columns row
unfolding build_insert_document mongres.Schema.Path.is_literal_dotted_key
    mongres.Executor.bson_value
build_insert_document-ReadsBack_example =
    build_insert_document-ReadsBack concrete columns row inserted refl

abbrev assignments : List AssignmentPlan
assignments =
    record { path = age; value = SqlValue.null }
    ∷ record { path = "address" ∷ "city" ∷ []; value = SqlValue.string "x" }
    ∷ []

abbrev set_document : Fields
set_document =
    field "$set"
      (Value.document (field "age" Value.null (field "address.city" (Value.string "x") end))) end

update_document-AreSettable_example : (assignments ≢ []) × AreSettable [] assignments
unfolding update_document mongres.Executor.mongo_field_name
    mongres.Schema.Path.is_literal_dotted_key mongres.Text.is_empty mongres.Text.starts_with_char
    mongres.Executor.bson_value mongres.Order.Derived.list_cmp mongres.Text.join_dots
update_document-AreSettable_example =
    update_document-AreSettable concrete assignments set_document refl

AreApart-of_paths_overlap : (p q : List String) → paths_overlap p q ≡ false → AreApart p q
AreApart-of_paths_overlap p q h begins = ground (arith, h, (paths_overlap_iff p q).1 begins)

cities-AreApart : AreApart ("address" ∷ "city" ∷ []) age
unfolding paths_overlap mongres.Order.Derived.list_cmp
cities-AreApart = AreApart-of_paths_overlap ("address" ∷ "city" ∷ []) age refl

zips-AreApart : AreApart ("address" ∷ "city" ∷ []) ("address" ∷ "zip" ∷ [])
unfolding paths_overlap mongres.Order.Derived.list_cmp
zips-AreApart = AreApart-of_paths_overlap ("address" ∷ "city" ∷ []) ("address" ∷ "zip" ∷ []) refl

ages-AreApart : AreApart age ("address" ∷ "zip" ∷ [])
unfolding paths_overlap mongres.Order.Derived.list_cmp
ages-AreApart = AreApart-of_paths_overlap age ("address" ∷ "zip" ∷ []) refl

build_insert_document_total_example :
    (d : Fields) × (build_insert_document concrete columns row ≡ ok d)
unfolding IsInsertable mongres.Schema.Path.is_literal_dotted_key
build_insert_document_total_example = build_insert_document_total concrete columns row (
  (λ h. cc),
  refl,
  (cities-AreApart, (zips-AreApart, tt)),
  refl,
  ((λ h. cc), refl, (ages-AreApart, tt), refl, ((λ h. cc), refl, tt, refl, tt)),
)
