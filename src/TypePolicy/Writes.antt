-- ===== src/TypePolicy/Writes.antt =====
-- Which values a write may store in a field.
use mongres.Prelude.{
  true, false, ◌||◌, not, List, [], ◌∷◌, Option, none, some, length, ◌==◌, ◌≡◌, ◌≢◌, ◌↔◌, refl, sym,
  ◌∙◌, arith, Option-cases, inl, inr, get_elem?, if◌then◌else◌,
}
use mongres.Common.{Result, ok, err, ProxyError}
use mongres.Schema.{FieldPath, FieldProfile, ObservedType, SchemaProfile, field}
use mongres.Plan.{SqlValue, null, boolean, integer, floating_point, string, placeholder}
use mongres.Binding.{is_placeholder}
use mongres.TypePolicy.{
  non_null_types, validate_field_shape, is_compatible, validate_typed, validate_value,
  validate_write_value, not_compatible,
}

-- The samples show the field with one type besides null, in one shape, under a name of its own.
abbrev pub HasOnlyType : FieldProfile → ObservedType → Type 0
HasOnlyType f t =
    (f.has_dotted_key_collision ≡ false)
    × (length f.observed_shapes ≡ 1)
    × (non_null_types f.observed_types ≡ t ∷ [])

-- A value is refused only for a type that the samples settle.
abbrev pub Admits : FieldProfile → SqlValue → Type 0
Admits f value = (t : ObservedType) → HasOnlyType f t → is_compatible value t ≡ true

first_eq : {t u : ObservedType} {ts us : List ObservedType} → t ∷ ts ≡ u ∷ us → t ≡ u
first_eq e = cc

-- The type that the check of a value asks for.
settled : FieldProfile → List ObservedType → Option ObservedType
settled f types =
    if f.has_dotted_key_collision
      || (not (length f.observed_shapes == 1) || not (length types == 1))
    then none
    else get_elem? types 0

settled-some :
    (f : FieldProfile) (types : List ObservedType) (t : ObservedType)
    → settled f types ≡ some t
    → (f.has_dotted_key_collision ≡ false) × (length f.observed_shapes ≡ 1) × (types ≡ t ∷ [])
unfolding settled
settled-some f [] t e = absurd (ground arith)
settled-some f (u ∷ []) t e = (ground arith, ground arith, ground arith)
settled-some f (u ∷ v ∷ types) t e = absurd (ground arith)

settled-none :
    (f : FieldProfile) (t : ObservedType)
    → settled f (non_null_types f.observed_types) ≡ none
    → HasOnlyType f t
    → ⊥
unfolding settled
settled-none f t e (own_name, one_shape, one_type) = ground (arith, rw one_type at e)

validate_field_shape_lem :
    (path : FieldPath) (schema : SchemaProfile) (f : FieldProfile)
    → field schema path ≡ some f
    → validate_field_shape path schema ≡ ok (settled f (non_null_types f.observed_types))
unfolding validate_field_shape settled
validate_field_shape_lem path schema f found = rw (validate_field_shape, found) (ground arith)

module _ (path : FieldPath) (value : SqlValue) (schema : SchemaProfile) where
  -- The check of the value, once the field is known.
  checked : Option ObservedType → Result ProxyError (Unit {0})
  checked none = ok tt
  checked (some t) = if is_compatible value t then ok tt else err (not_compatible path t)

  validate_typed_lem :
      (f : FieldProfile)
      → field schema path ≡ some f
      → validate_typed path value schema ≡ checked (settled f (non_null_types f.observed_types))
  unfolding validate_typed checked
  validate_typed_lem f found =
      rw (validate_typed, validate_field_shape_lem path schema f found)
        (ground (arith, settled f (non_null_types f.observed_types)))

  checked-Admits :
      (f : FieldProfile)
      → checked (settled f (non_null_types f.observed_types)) ≡ ok tt
      → Admits f value
  unfolding checked
  checked-Admits f e t only = elim (Option-cases (settled f (non_null_types f.observed_types))) [
    | inl open_type ↦ absurd (settled-none f t open_type only)
    | inr (u, is_settled) ↦
        let (own_name, one_shape, one_type) =
          settled-some f (non_null_types f.observed_types) u is_settled in
        let accepted = rw is_settled at e in
        let same : u ≡ t = first_eq (sym one_type ∙ only.2) in ground (arith, accepted, same)
  ]

  Admits-checked :
      (f : FieldProfile)
      → Admits f value
      → checked (settled f (non_null_types f.observed_types)) ≡ ok tt
  unfolding checked
  Admits-checked f admits = elim (Option-cases (settled f (non_null_types f.observed_types))) [
    | inl open_type ↦ rw open_type refl
    | inr (u, is_settled) ↦
        let compatible = admits u (settled-some f (non_null_types f.observed_types) u is_settled) in
        rw (is_settled, compatible) refl
  ]

  unknown_field : field schema path ≡ none → validate_typed path value schema ≢ ok tt
  unfolding validate_typed validate_field_shape
  unknown_field absent e = ground (arith, absent)

  -- The check of a typed value passes exactly if the profile has the field and the field admits the
  -- value.
  validate_typed_iff :
      (validate_typed path value schema ≡ ok tt)
      ↔ ((f : FieldProfile) × (field schema path ≡ some f) × Admits f value)
  validate_typed_iff = (forth, back)
    where
      forth :
          validate_typed path value schema ≡ ok tt
          → (f : FieldProfile) × (field schema path ≡ some f) × Admits f value
      forth e = elim (Option-cases (field schema path)) [
        | inl absent ↦ absurd (unknown_field absent e)
        | inr (f, found) ↦ (f, found, checked-Admits f (sym (validate_typed_lem f found) ∙ e))
      ]

      back :
          (f : FieldProfile) × (field schema path ≡ some f) × Admits f value
          → validate_typed path value schema ≡ ok tt
      back (f, found, admits) = validate_typed_lem f found ∙ Admits-checked f admits

-- A value that is neither NULL nor a placeholder may be written exactly if the profile has the field
-- and the field does not settle another type: where the samples show one type besides null, in one
-- shape and under a name of its own, the value has that type.
pub validate_write_value_iff :
    (path : FieldPath) (value : SqlValue) (schema : SchemaProfile)
    → value ≢ null
    → is_placeholder value ≡ false
    → (validate_write_value path value schema ≡ ok tt)
      ↔ ((f : FieldProfile) × (field schema path ≡ some f) × Admits f value)
unfolding validate_write_value validate_value
validate_write_value_iff path null schema some_value bound = absurd (some_value refl)
validate_write_value_iff path (boolean b) schema some_value bound =
    validate_typed_iff path (boolean b) schema
validate_write_value_iff path (integer n) schema some_value bound =
    validate_typed_iff path (integer n) schema
validate_write_value_iff path (floating_point x) schema some_value bound =
    validate_typed_iff path (floating_point x) schema
validate_write_value_iff path (string s) schema some_value bound =
    validate_typed_iff path (string s) schema
validate_write_value_iff path (placeholder p) schema some_value bound = absurd (ground arith)
