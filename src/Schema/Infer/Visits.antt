-- ===== src/Schema/Infer/Visits.antt =====
-- What one visit of `observe_value` adds to the counts, seen from any path.
use mongres.Prelude.{
  ℕ, ◌+◌, String, false, List, [], ◌∷◌, ◌++◌, none, some, length, length-append, ◌≡◌, refl, sym,
  ◌∙◌, arith, ap, if◌then◌else◌, Bool-cases, inl, inr,
}
use mathlib.Core.List.{append_assoc, append-nil}
use mongres.Order.{◌=ₖ◌, =ₖ_sound, =ₖ_refl}
use mongres.Order.Derived.{list_ord}
use mongres.Order.Text.{text_ord}
use mongres.BTree.{get}
use mongres.BTree.Lookup.{get-insert}
use mongres.Schema.{FieldPath, child}
use mongres.Schema.Sample.{
  SampleValue, SampleDocument, null, boolean, integer, floating_point, string, date_time, object_id,
  document, array, end, entry,
}
use mongres.Schema.Infer.{
  Observations, or_default, empty_profile, observe_entry, observe_at, observe_value, observe_fields,
}

-- How many values a document or a value has at a path relative to it: at most one where the names of
-- each document are distinct.
unfoldable mutual
  pub values_at : SampleValue → List String → ℕ
  values_at v [] = 1
  values_at (document d) (name ∷ rest) = fields_at d name rest
  values_at v (name ∷ rest) = 0

  pub fields_at : SampleDocument → String → List String → ℕ
  fields_at end name rest = 0
  fields_at (entry key v d) name rest =
      (if name =ₖ key then values_at v rest else 0) + fields_at d name rest

-- The count of a path in the observations.
unfoldable pub count : FieldPath → Observations → ℕ
count p m = elim (get p m) [ none ↦ 0 | some e ↦ e.present_documents ]

count-observe_at :
    (m : Observations) (p q : FieldPath) (v : SampleValue)
    → count q (observe_at m p v) ≡ (if q =ₖ p then 1 else 0) + count q m
unfolding count observe_at observe_entry
count-observe_at m p q v =
    ground
      (arith, get-insert q p (observe_entry v (or_default empty_profile (get p m))) m, =ₖ_sound q p)

-- `q` is not at or below `p`.
pub Outside : FieldPath → FieldPath → Type 0
Outside p q = (rest : List String) → p ++ rest ≡ q → ⊥

append_cancel : (p a b : FieldPath) → p ++ a ≡ p ++ b → a ≡ b
append_cancel [] a b e = e
append_cancel (s ∷ p) a b e = append_cancel p a b cc

Outside-child : (p q : FieldPath) (name : String) → Outside p q → Outside (child p name) q
unfolding Outside
Outside-child p q name h rest e = h (name ∷ rest) (sym (append_assoc p (name ∷ []) rest) ∙ e)

=ₖ-Outside : (p q : FieldPath) → Outside p q → (q =ₖ p) ≡ false
unfolding Outside
=ₖ-Outside p q h = elim (Bool-cases (q =ₖ p)) [
  | inl same ↦ absurd (h [] (append-nil p ∙ sym (=ₖ_sound q p same)))
  | inr other ↦ other
]

-- Below a child nothing at another name, and nothing at the parent, is counted.
pub Outside-sibling :
    (p : FieldPath) (key name : String) (rest : List String)
    → (name =ₖ key) ≡ false
    → Outside (child p key) (p ++ name ∷ rest)
unfolding Outside
Outside-sibling p key name rest other more e =
    let same =
      append_cancel p (key ∷ more) (name ∷ rest) (sym (append_assoc p (key ∷ []) more) ∙ e) in
    ground (arith, same, =ₖ_refl name)

Outside-parent : (p : FieldPath) (key : String) → Outside (child p key) p
unfolding Outside
Outside-parent p key more e =
    let extended : p ++ (key ∷ more) ≡ p ++ [] =
      sym (append_assoc p (key ∷ []) more) ∙ e ∙ sym (append-nil p) in
    absurd (cons_nil (append_cancel p (key ∷ more) [] extended))
  where
    cons_nil : {s : String} {ss : List String} → ◌≡◌ {A = List String} (s ∷ ss) [] → ⊥
    cons_nil e = cc

count-observe_at-Outside :
    (m : Observations) (p q : FieldPath) (v : SampleValue)
    → Outside p q
    → count q (observe_at m p v) ≡ count q m
count-observe_at-Outside m p q v h = ground (arith, count-observe_at m p q v, =ₖ-Outside p q h)

mutual
  unfolding observe_value

  pub count-observe_value-Outside :
      (v : SampleValue) (m : Observations) (p q : FieldPath)
      → Outside p q
      → count q (observe_value m p v) ≡ count q m
  count-observe_value-Outside (document d) m p q h =
      count-observe_fields-Outside d (observe_at m p (document d)) p q h
      ∙ count-observe_at-Outside m p q (document d) h
  count-observe_value-Outside null m p q h = count-observe_at-Outside m p q null h
  count-observe_value-Outside (boolean x) m p q h = count-observe_at-Outside m p q (boolean x) h
  count-observe_value-Outside (integer x) m p q h = count-observe_at-Outside m p q (integer x) h
  count-observe_value-Outside (floating_point x) m p q h =
      count-observe_at-Outside m p q (floating_point x) h
  count-observe_value-Outside (string x) m p q h = count-observe_at-Outside m p q (string x) h
  count-observe_value-Outside (date_time x) m p q h = count-observe_at-Outside m p q (date_time x) h
  count-observe_value-Outside (object_id x) m p q h = count-observe_at-Outside m p q (object_id x) h
  count-observe_value-Outside (array x) m p q h = count-observe_at-Outside m p q (array x) h

  count-observe_fields-Outside :
      (d : SampleDocument) (m : Observations) (p q : FieldPath)
      → Outside p q
      → count q (observe_fields m p d) ≡ count q m
  count-observe_fields-Outside end m p q h = refl
  count-observe_fields-Outside (entry name v d) m p q h =
      count-observe_fields-Outside d (observe_value m (child p name) v) p q h
      ∙ count-observe_value-Outside v m (child p name) q (Outside-child p q name h)

pub count-observe_fields_parent :
    (d : SampleDocument) (m : Observations) (p : FieldPath)
    → count p (observe_fields m p d) ≡ count p m
unfolding observe_value
count-observe_fields_parent end m p = refl
count-observe_fields_parent (entry name v d) m p =
    count-observe_fields_parent d (observe_value m (child p name) v) p
    ∙ count-observe_value-Outside v m (child p name) p (Outside-parent p name)

pub count-observe_at_here :
    (m : Observations) (p : FieldPath) (v : SampleValue)
    → count (p ++ []) (observe_at m p v) ≡ 1 + count (p ++ []) m
count-observe_at_here m p v =
    rw (append-nil p) (ground (arith, count-observe_at m p p v, =ₖ_refl p))

pub count-observe_at_below :
    (m : Observations) (p : FieldPath) (v : SampleValue) (name : String) (rest : List String)
    → count (p ++ name ∷ rest) (observe_at m p v) ≡ count (p ++ name ∷ rest) m
count-observe_at_below m p v name rest = ground (
  arith,
  count-observe_at m p (p ++ name ∷ rest) v,
  =ₖ_sound (p ++ name ∷ rest) p,
  length-append p (name ∷ rest),
  ap length (=ₖ_sound (p ++ name ∷ rest) p _),
)
