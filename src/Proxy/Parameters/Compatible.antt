-- ===== src/Proxy/Parameters/Compatible.antt =====
-- What is decoded for a parameter of an inferred type passes the type policy of its field.
use mongres.Prelude.{
  ℕ, zero, suc, ◌^◌, ◌⊎◌, String, Bool, true, false, [], ◌∷◌, Option, none, some, ◌≡◌, refl, sym,
  arith, Option-cases, Bool-cases, inl, inr, length, get_elem?, ◌==◌,
}
use mongres.Prelude.Int.{ℤ}
use mongres.Text.Decimal.{parse_i64, parse_signed}
use mongres.F64.{F64, is_finite}
use mongres.Common.{Result, ok, ProxyError}
use mongres.Common.Results.{>>=-eq-ok, ok_injective, ok_or}
use mongres.Schema.{FieldPath, SchemaProfile, FieldProfile, ObservedType, field}
use mongres.Plan.{SqlValue}
use mongres.TypePolicy.{
  non_null_types, validate_typed, validate_value, validate_write_value, is_compatible,
  validate_field_shape,
}
use mongres.Proxy.PgType.{PgType, same_type}
use mongres.Proxy.Prepare.{
  type_of_observed, infer_field_parameter_type, compatible_parameter_type, reconcile_one,
}
use mongres.Proxy.Parameters.{
  Bytes, FieldFormat, Readers, parse_boolean, finite_float, signed_of, unsigned_of, integer_of,
  binary_boolean, binary_text, fixed_binary, fixed_binary_float, decode_string, decode_text,
  decode_binary, decode_parameter,
}

-- The type of the values that a type of the wire stands for.
abbrev kind_of : PgType → Option ObservedType
kind_of PgType.bool = some ObservedType.boolean
kind_of PgType.int2 = some ObservedType.integer
kind_of PgType.int4 = some ObservedType.integer
kind_of PgType.int8 = some ObservedType.integer
kind_of PgType.float4 = some ObservedType.floating_point
kind_of PgType.float8 = some ObservedType.floating_point
kind_of PgType.text = some ObservedType.string
kind_of PgType.varchar = some ObservedType.string
kind_of PgType.bpchar = some ObservedType.string
kind_of t = none

-- The value is of the kind, if there is one.
abbrev HasKind : Option ObservedType → SqlValue → Type 0
HasKind none v = ⊥
HasKind (some o) v = is_compatible v o ≡ true

integer_lem :
    (read : Option ℤ) (message : String) (v : SqlValue)
    → integer_of read message ≡ ok v
    → is_compatible v ObservedType.integer ≡ true
unfolding is_compatible
integer_lem none message v h = cc
integer_lem (some n) message v h =
    let same : SqlValue.integer n ≡ v = ok_injective h in rw (← same) refl

finite_float_lem :
    (x : F64) (v : SqlValue)
    → finite_float x ≡ ok v
    → is_compatible v ObservedType.floating_point ≡ true
unfolding finite_float is_compatible
finite_float_lem x v h = elim (Bool-cases (is_finite x)) [
  | inl finite ↦
      let same : SqlValue.floating_point x ≡ v = ok_injective (rw finite at h) in rw (← same) refl
  | inr infinite ↦ absurd (ground (arith, infinite))
]

compatible_boolean :
    (b : Bool) (v : SqlValue)
    → ◌≡◌ {A = Result ProxyError SqlValue} (ok (SqlValue.boolean b)) (ok v)
    → is_compatible v ObservedType.boolean ≡ true
unfolding is_compatible
compatible_boolean b v h = let same : SqlValue.boolean b ≡ v = ok_injective h in rw (← same) refl

compatible_string :
    (s : String) (v : SqlValue)
    → ◌≡◌ {A = Result ProxyError SqlValue} (ok (SqlValue.string s)) (ok v)
    → is_compatible v ObservedType.string ≡ true
unfolding is_compatible
compatible_string s v h = let same : SqlValue.string s ≡ v = ok_injective h in rw (← same) refl

compatible_integer :
    (n : ℤ) (v : SqlValue)
    → ◌≡◌ {A = Result ProxyError SqlValue} (ok (SqlValue.integer n)) (ok v)
    → is_compatible v ObservedType.integer ≡ true
unfolding is_compatible
compatible_integer n v h = let same : SqlValue.integer n ≡ v = ok_injective h in rw (← same) refl

parse_boolean_lem :
    (s : String) (v : SqlValue)
    → parse_boolean s ≡ ok v
    → is_compatible v ObservedType.boolean ≡ true
unfolding parse_boolean
parse_boolean_lem s v h = ground (arith, compatible_boolean true v, compatible_boolean false v)

fixed_binary_lem :
    (bytes : Bytes) (type_name : String) (expected least : ℕ) (v : SqlValue)
    → fixed_binary bytes type_name expected least ≡ ok v
    → is_compatible v ObservedType.integer ≡ true
unfolding fixed_binary
fixed_binary_lem bytes type_name expected least v h = elim (Bool-cases (length bytes == expected)) [
  | inl fits ↦ compatible_integer (signed_of least bytes) v (ground (arith, fits))
  | inr other ↦ absurd (ground (arith, other))
]

fixed_binary_float_lem :
    (bytes : Bytes) (type_name : String) (expected : ℕ) (decode : Bytes → F64) (v : SqlValue)
    → fixed_binary_float bytes type_name expected decode ≡ ok v
    → is_compatible v ObservedType.floating_point ≡ true
unfolding fixed_binary_float
fixed_binary_float_lem bytes type_name expected decode v h =
    elim (Bool-cases (length bytes == expected)) [
      | inl fits ↦ finite_float_lem (decode bytes) v (ground (arith, fits))
      | inr other ↦ absurd (ground (arith, other))
    ]

binary_boolean_lem :
    (bytes : Bytes) (v : SqlValue)
    → binary_boolean bytes ≡ ok v
    → is_compatible v ObservedType.boolean ≡ true
binary_boolean_lem (zero ∷ []) v h = compatible_boolean false v h
binary_boolean_lem (suc zero ∷ []) v h = compatible_boolean true v h
binary_boolean_lem bytes v h = absurd (ground arith)

module _ (readers : Readers) (type_name : PgType → String) (oid : PgType → ℕ) where
  decode_string-HasKind :
      (s : String) (t : PgType) (v : SqlValue)
      → decode_string readers type_name oid s t ≡ ok v
      → HasKind (kind_of t) v
  unfolding decode_string
  decode_string-HasKind s PgType.bool v h = parse_boolean_lem s v h
  decode_string-HasKind s PgType.int2 v h = integer_lem (parse_signed (2 ^ 15) s) _ v h
  decode_string-HasKind s PgType.int4 v h = integer_lem (parse_signed (2 ^ 31) s) _ v h
  decode_string-HasKind s PgType.int8 v h = integer_lem (parse_i64 s) _ v h
  decode_string-HasKind s PgType.float4 v h =
      let (bits, _, h1) = >>=-eq-ok (ok_or (readers.parse_f32 s) _) _ h in
      finite_float_lem (readers.widen bits) v h1
  decode_string-HasKind s PgType.float8 v h =
      let (x, _, h1) = >>=-eq-ok (ok_or (readers.parse_f64 s) _) _ h in finite_float_lem x v h1
  decode_string-HasKind s PgType.text v h = compatible_string s v h
  decode_string-HasKind s PgType.varchar v h = compatible_string s v h
  decode_string-HasKind s PgType.bpchar v h = compatible_string s v h
  decode_string-HasKind s t v h = absurd (ground arith)

  binary_text_lem :
      (bytes : Bytes) (v : SqlValue)
      → binary_text readers type_name oid bytes ≡ ok v
      → is_compatible v ObservedType.string ≡ true
  binary_text_lem bytes v h =
      let (s, _, h1) = >>=-eq-ok (ok_or (readers.from_utf8 bytes) _) _ h in compatible_string s v h1

  decode_binary-HasKind :
      (bytes : Bytes) (t : PgType) (v : SqlValue)
      → decode_binary readers type_name oid bytes t ≡ ok v
      → HasKind (kind_of t) v
  unfolding decode_binary
  decode_binary-HasKind bytes PgType.bool v h = binary_boolean_lem bytes v h
  decode_binary-HasKind bytes PgType.int2 v h = fixed_binary_lem bytes "int2" 2 (2 ^ 15) v h
  decode_binary-HasKind bytes PgType.int4 v h = fixed_binary_lem bytes "int4" 4 (2 ^ 31) v h
  decode_binary-HasKind bytes PgType.int8 v h = fixed_binary_lem bytes "int8" 8 (2 ^ 63) v h
  decode_binary-HasKind bytes PgType.float4 v h =
      fixed_binary_float_lem bytes "float4" 4 (λ b. readers.widen (unsigned_of b)) v h
  decode_binary-HasKind bytes PgType.float8 v h =
      fixed_binary_float_lem bytes "float8" 8 (λ b. record { bits = unsigned_of b }) v h
  decode_binary-HasKind bytes PgType.text v h = binary_text_lem bytes v h
  decode_binary-HasKind bytes PgType.varchar v h = binary_text_lem bytes v h
  decode_binary-HasKind bytes PgType.bpchar v h = binary_text_lem bytes v h
  decode_binary-HasKind bytes t v h = absurd (ground arith)

  decode_parameter-HasKind :
      (value : Option Bytes) (t : PgType) (format : FieldFormat) (v : SqlValue)
      → decode_parameter readers type_name oid value t format ≡ ok v
      → (v ≡ SqlValue.null) ⊎ HasKind (kind_of t) v
  unfolding decode_parameter decode_text
  decode_parameter-HasKind none t format v h = inl (sym (ok_injective h))
  decode_parameter-HasKind (some bytes) t FieldFormat.text v h =
      let (s, _, h1) = >>=-eq-ok (ok_or (readers.from_utf8 bytes) _) _ h in
      inr (decode_string-HasKind s t v h1)
  decode_parameter-HasKind (some bytes) t FieldFormat.binary v h =
      inr (decode_binary-HasKind bytes t v h)

type_of_observed_lem :
    (path : FieldPath) (o : ObservedType) (t : PgType)
    → type_of_observed path o ≡ ok t
    → kind_of t ≡ some o
unfolding type_of_observed
type_of_observed_lem path o t h = ground arith

compatible_lem :
    (requested inferred : PgType) (o : ObservedType)
    → compatible_parameter_type requested inferred ≡ true
    → kind_of inferred ≡ some o
    → kind_of requested ≡ some o
unfolding compatible_parameter_type same_type
compatible_lem requested inferred o h kind = ground arith

reconcile_lem :
    (type_name : PgType → String) (index : ℕ) (requested inferred t : PgType) (o : ObservedType)
    → reconcile_one type_name index requested inferred ≡ ok t
    → kind_of inferred ≡ some o
    → kind_of t ≡ some o
unfolding reconcile_one
reconcile_lem type_name index requested inferred t o h kind =
    elim (Bool-cases (same_type requested PgType.unknown)) [
      | inl open_type ↦
          let kept : ◌≡◌ {A = Result ProxyError PgType} (ok inferred) (ok t) =
            ground (arith, open_type) in
          rw (← ok_injective kept) kind
      | inr declared ↦ elim (Bool-cases (compatible_parameter_type requested inferred)) [
        | inl fits ↦
            let kept : ◌≡◌ {A = Result ProxyError PgType} (ok requested) (ok t) =
              ground (arith, declared, fits) in
            rw (← ok_injective kept) (compatible_lem requested inferred o fits kind)
        | inr other ↦ absurd (ground (arith, declared, other))
      ]
    ]

-- The field of an inferred type shows one type besides null.
infer_lem :
    (path : FieldPath) (schema : SchemaProfile) (t : PgType)
    → infer_field_parameter_type path schema ≡ ok t
    → (f : FieldProfile) × (o : ObservedType) × (field schema path ≡ some f)
      × (get_elem? (non_null_types f.observed_types) 0 ≡ some o)
      × (kind_of t ≡ some o)
unfolding infer_field_parameter_type
infer_lem path schema t h = elim (Option-cases (field schema path)) [
  | inl missing ↦ absurd (ground (arith, missing))
  | inr (f, found) ↦ elim (Option-cases (get_elem? (non_null_types f.observed_types) 0)) [
    | inl no_type ↦ absurd (ground (arith, rw (infer_field_parameter_type, found, no_type) at h))
    | inr (o, observed) ↦ (
      f,
      o,
      found,
      observed,
      type_of_observed_lem path o t
          (ground (arith, rw (infer_field_parameter_type, found, observed) at h)),
    )
  ]
]

validate_typed_lem :
    (path : FieldPath) (schema : SchemaProfile) (f : FieldProfile) (o : ObservedType) (v : SqlValue)
    → field schema path ≡ some f
    → get_elem? (non_null_types f.observed_types) 0 ≡ some o
    → is_compatible v o ≡ true
    → validate_typed path v schema ≡ ok tt
unfolding validate_typed validate_field_shape
validate_typed_lem path schema f o v found observed compatible =
    ground (arith, found, observed, compatible)

validate_write_value_lem :
    (path : FieldPath) (schema : SchemaProfile) (o : ObservedType) (v : SqlValue)
    → is_compatible v o ≡ true
    → validate_typed path v schema ≡ ok tt
    → validate_write_value path v schema ≡ ok tt
unfolding validate_write_value validate_value is_compatible
validate_write_value_lem path schema o SqlValue.null c h = refl
validate_write_value_lem path schema o (SqlValue.boolean b) c h = h
validate_write_value_lem path schema o (SqlValue.integer n) c h = h
validate_write_value_lem path schema o (SqlValue.floating_point x) c h = h
validate_write_value_lem path schema o (SqlValue.string s) c h = h
validate_write_value_lem path schema o (SqlValue.placeholder p) c h = refl

null_is_allowed :
    (path : FieldPath) (schema : SchemaProfile) (v : SqlValue)
    → v ≡ SqlValue.null
    → validate_write_value path v schema ≡ ok tt
unfolding validate_write_value validate_value
null_is_allowed path schema v e = rw e refl

-- A parameter whose type is inferred for a field and reconciled with the type that the client
-- declares: whatever its bytes decode to, in either format, may be written to that field.
pub decode_parameter-validate_write_value :
    (readers : Readers) (type_name : PgType → String) (oid : PgType → ℕ) (path : FieldPath)
    (schema : SchemaProfile) (index : ℕ) (requested inferred t : PgType) (value : Option Bytes)
    (format : FieldFormat) (v : SqlValue)
    → infer_field_parameter_type path schema ≡ ok inferred
    → reconcile_one type_name index requested inferred ≡ ok t
    → decode_parameter readers type_name oid value t format ≡ ok v
    → validate_write_value path v schema ≡ ok tt
decode_parameter-validate_write_value readers type_name oid path schema index requested inferred t
      value format v inference agreement decoded =
    let (f, o, found, observed, kind) = infer_lem path schema inferred inference in
    let kind' = reconcile_lem type_name index requested inferred t o agreement kind in
    elim (decode_parameter-HasKind readers type_name oid value t format v decoded) [
      | inl is_null ↦ null_is_allowed path schema v is_null
      | inr has_kind ↦
          let compatible : is_compatible v o ≡ true = rw kind' at has_kind in
          validate_write_value_lem path schema o v compatible
            (validate_typed_lem path schema f o v found observed compatible)
    ]
