-- ===== src/Schema/Infer/Added.antt =====
-- What `observe_value` adds to the count of a path: the values at the path below the visited one.
use mongres.Prelude.{
  ◌+◌, String, List, [], ◌∷◌, ◌++◌, ◌≡◌, refl, sym, ◌∙◌, arith, ap, Bool-cases, inl, inr,
}
use mathlib.Core.List.{append_assoc, append-nil}
use mongres.Order.{◌=ₖ◌, =ₖ_sound}
use mongres.Order.Derived.{list_ord}
use mongres.Order.Text.{text_ord}
use mongres.Schema.{FieldPath, child}
use mongres.Schema.Sample.{
  SampleValue, SampleDocument, null, boolean, integer, floating_point, string, date_time, object_id,
  document, array, end, entry,
}
use mongres.Schema.Infer.{Observations, observe_at, observe_value, observe_fields}
use mongres.Schema.Infer.Visits.{
  values_at, fields_at, count, Outside-sibling, count-observe_value-Outside,
  count-observe_fields_parent, count-observe_at_here, count-observe_at_below,
}

count-observe_at :
    (v : SampleValue) (m : Observations) (p rest : FieldPath)
    → values_at v [] ≡ 1
    → ((name : String) (more : List String) → values_at v (name ∷ more) ≡ 0)
    → count (p ++ rest) (observe_at m p v) ≡ values_at v rest + count (p ++ rest) m
count-observe_at v m p [] h k = ground (arith, count-observe_at_here m p v)
count-observe_at v m p (name ∷ rest) h k =
    ground (arith, count-observe_at_below m p v name rest, k name rest)

mutual
  unfolding observe_value values_at

  count-observe_value :
      (v : SampleValue) (m : Observations) (p rest : FieldPath)
      → count (p ++ rest) (observe_value m p v) ≡ values_at v rest + count (p ++ rest) m
  count-observe_value (document d) m p [] = rw (append-nil p) (
      count-observe_fields_parent d (observe_at m p (document d)) p
      ∙ (rw (append-nil p) at (count-observe_at_here m p (document d))))
  count-observe_value (document d) m p (name ∷ rest) =
      count-observe_fields d (observe_at m p (document d)) p name rest
      ∙ ap (λ n. fields_at d name rest + n) (count-observe_at_below m p (document d) name rest)
  count-observe_value null m p rest = count-observe_at null m p rest refl (λ name more. refl)
  count-observe_value (boolean x) m p rest =
      count-observe_at (boolean x) m p rest refl (λ name more. refl)
  count-observe_value (integer x) m p rest =
      count-observe_at (integer x) m p rest refl (λ name more. refl)
  count-observe_value (floating_point x) m p rest =
      count-observe_at (floating_point x) m p rest refl (λ name more. refl)
  count-observe_value (string x) m p rest =
      count-observe_at (string x) m p rest refl (λ name more. refl)
  count-observe_value (date_time x) m p rest =
      count-observe_at (date_time x) m p rest refl (λ name more. refl)
  count-observe_value (object_id x) m p rest =
      count-observe_at (object_id x) m p rest refl (λ name more. refl)
  count-observe_value (array x) m p rest =
      count-observe_at (array x) m p rest refl (λ name more. refl)

  pub count-observe_fields :
      (d : SampleDocument) (m : Observations) (p : FieldPath) (name : String) (rest : List String)
      → count (p ++ name ∷ rest) (observe_fields m p d)
        ≡ fields_at d name rest + count (p ++ name ∷ rest) m
  count-observe_fields end m p name rest = omega arith
  count-observe_fields (entry key v d) m p name rest =
      let after = observe_value m (child p key) v in
      let there = count-observe_fields d after p name rest in
      elim (Bool-cases (name =ₖ key)) [
        | inl same ↦
            let path_is : p ++ name ∷ rest ≡ child p key ++ rest =
              ap (λ n. p ++ n ∷ rest) (=ₖ_sound name key same)
              ∙ sym (append_assoc p (key ∷ []) rest) in
            let here = rw (← path_is) at (count-observe_value v m (child p key) rest) in
            ground (arith, same, there, here)
        | inr other ↦ ground (
          arith,
          there,
          other,
          count-observe_value-Outside v m (child p key) (p ++ name ∷ rest)
              (Outside-sibling p key name rest other),
        )
      ]
