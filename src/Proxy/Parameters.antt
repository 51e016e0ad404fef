-- ===== src/Proxy/Parameters.antt =====
-- crates/proxy/src/parameters.rs: the bytes of a parameter as a value, and `portal_parameters` of
-- src/lib.rs, which decodes all of them. A byte is a number below 256. What the standard library
-- does with UTF-8 and with floating-point numbers, and what the pgwire crate answers, are parameters.
pub mod Compatible
pub mod RoundTrip
use Prim.Native.String
use mongres.Prelude.{
  ℕ, zero, suc, ◌+◌, ◌-◌, ◌*◌, ◌^◌, String, Bool, true, false, not, ◌||◌, List, [], ◌∷◌, Option,
  none, some, length, ltb, leb, ◌==◌, if◌then◌else◌,
}
use mongres.Prelude.Int.{ℤ, pos, negsuc}
use mongres.F64.{F64, is_finite}
use mongres.Order.{◌=ₖ◌}
use mongres.Order.Text.{text_ord}
use mongres.Common.{Result, ok, err, ◌>>=◌, ProxyError, proxy_error, ErrorKind}
use mongres.Common.Results.{ok_or}
use mongres.Text.Decimal.{parse_i64, parse_signed, print_nat}
use mongres.Plan.{SqlValue}
use mongres.TypePolicy.{invalid_input}
use mongres.Proxy.PgType.{PgType}

-- `&[u8]`
abbrev pub Bytes : Type 0
Bytes = List ℕ

-- `FieldFormat`
pub data FieldFormat : Type 0 where
  text binary : FieldFormat

-- `Format`; the codes of `Individual` are counted.
pub data Format : Type 0 where
  unified_text unified_binary : Format
  individual : List ℤ → Format

-- The number that the bytes spell, the first one the most significant.
unfoldable pub unsigned_of : Bytes → ℕ
unsigned_of [] = 0
unsigned_of (b ∷ bs) = b * 256 ^ length bs + unsigned_of bs

-- `from_be_bytes` of the signed type whose least number is `-least`: two's complement
unfoldable pub signed_of : ℕ → Bytes → ℤ
unfolding unsigned_of
signed_of least bytes =
    let n = unsigned_of bytes in if ltb n least then pos n else negsuc (2 * least - 1 - n)

-- The readers of the standard library for UTF-8 and floating-point numbers: an `f32` is given by its
-- bits, and `widen` is `f64::from`.
pub record Readers : Type 0 where
  pub from_utf8 : Bytes → Option String
  pub parse_f32 : String → Option ℕ
  pub widen : ℕ → F64
  pub parse_f64 : String → Option F64

-- `parse_boolean`
unfoldable pub parse_boolean : String → Result ProxyError SqlValue
parse_boolean s =
    if (s =ₖ "t") || ((s =ₖ "true") || (s =ₖ "1"))
    then ok (SqlValue.boolean true)
    else if (s =ₖ "f") || ((s =ₖ "false") || (s =ₖ "0"))
    then ok (SqlValue.boolean false)
    else err (invalid_input "invalid boolean parameter")

-- `finite_float`
unfoldable pub finite_float : F64 → Result ProxyError SqlValue
finite_float x =
    if is_finite x
    then ok (SqlValue.floating_point x)
    else err (invalid_input "non-finite floating-point parameters are not supported")

abbrev pub bad_length : String → ProxyError
bad_length type_name =
    invalid_input (String.◌++◌ "invalid binary " (String.◌++◌ type_name " parameter length"))

-- `fixed_binary`, with the length and the least number that go with the name of the type
unfoldable pub fixed_binary : Bytes → String → ℕ → ℕ → Result ProxyError SqlValue
unfolding signed_of
fixed_binary bytes type_name expected least =
    if not (length bytes == expected)
    then err (bad_length type_name)
    else ok (SqlValue.integer (signed_of least bytes))

-- `fixed_binary_float`
unfoldable pub fixed_binary_float : Bytes → String → ℕ → (Bytes → F64) → Result ProxyError SqlValue
unfolding finite_float
fixed_binary_float bytes type_name expected decode =
    if not (length bytes == expected)
    then err (bad_length type_name)
    else finite_float (decode bytes)

-- `decode_binary` of a boolean
abbrev pub binary_boolean : Bytes → Result ProxyError SqlValue
binary_boolean (zero ∷ []) = ok (SqlValue.boolean false)
binary_boolean (suc zero ∷ []) = ok (SqlValue.boolean true)
binary_boolean bytes = err (invalid_input "invalid binary boolean parameter")

abbrev pub integer_of : Option ℤ → String → Result ProxyError SqlValue
integer_of read message = do n ← ok_or read (invalid_input message); ok (SqlValue.integer n)

-- `Type::name` and `Type::oid`
module _ (readers : Readers) (type_name : PgType → String) (oid : PgType → ℕ) where
  -- `unsupported_type`
  unfoldable pub unsupported_type : PgType → ProxyError
  unsupported_type t = proxy_error ErrorKind.feature_not_supported (
      String.◌++◌ "prepared-statement parameter type '" (
        String.◌++◌ (type_name t)
          (String.◌++◌ "' (OID " (String.◌++◌ (print_nat (oid t)) ") is not supported"))))

  -- `decode_text`, after the bytes are read as UTF-8
  unfoldable pub decode_string : String → PgType → Result ProxyError SqlValue
  unfolding parse_boolean finite_float unsupported_type
  decode_string s PgType.bool = parse_boolean s
  decode_string s PgType.int2 = integer_of (parse_signed (2 ^ 15) s) "invalid int2 parameter"
  decode_string s PgType.int4 = integer_of (parse_signed (2 ^ 31) s) "invalid int4 parameter"
  decode_string s PgType.int8 = integer_of (parse_i64 s) "invalid int8 parameter"
  decode_string s PgType.float4 = do
    bits ← ok_or (readers.parse_f32 s) (invalid_input "invalid float4 parameter")
    finite_float (readers.widen bits)
  decode_string s PgType.float8 = do
    x ← ok_or (readers.parse_f64 s) (invalid_input "invalid float8 parameter")
    finite_float x
  decode_string s PgType.text = ok (SqlValue.string s)
  decode_string s PgType.varchar = ok (SqlValue.string s)
  decode_string s PgType.bpchar = ok (SqlValue.string s)
  decode_string s t = err (unsupported_type t)

  -- `decode_text`
  unfoldable pub decode_text : Bytes → PgType → Result ProxyError SqlValue
  unfolding decode_string
  decode_text bytes t = do
    s ← ok_or (readers.from_utf8 bytes) (invalid_input "text parameter is not valid UTF-8")
    decode_string s t

  abbrev pub binary_text : Bytes → Result ProxyError SqlValue
  binary_text bytes = do
    s ← ok_or (readers.from_utf8 bytes) (invalid_input "binary text parameter is not valid UTF-8")
    ok (SqlValue.string s)

  -- `decode_binary`
  unfoldable pub decode_binary : Bytes → PgType → Result ProxyError SqlValue
  unfolding fixed_binary fixed_binary_float unsigned_of unsupported_type
  decode_binary bytes PgType.bool = binary_boolean bytes
  decode_binary bytes PgType.int2 = fixed_binary bytes "int2" 2 (2 ^ 15)
  decode_binary bytes PgType.int4 = fixed_binary bytes "int4" 4 (2 ^ 31)
  decode_binary bytes PgType.int8 = fixed_binary bytes "int8" 8 (2 ^ 63)
  decode_binary bytes PgType.float4 =
      fixed_binary_float bytes "float4" 4 (λ b. readers.widen (unsigned_of b))
  decode_binary bytes PgType.float8 =
      fixed_binary_float bytes "float8" 8 (λ b. record { bits = unsigned_of b })
  decode_binary bytes PgType.text = binary_text bytes
  decode_binary bytes PgType.varchar = binary_text bytes
  decode_binary bytes PgType.bpchar = binary_text bytes
  decode_binary bytes t = err (unsupported_type t)

  -- `decode_parameter`
  unfoldable pub decode_parameter : Option Bytes → PgType → FieldFormat → Result ProxyError SqlValue
  unfolding decode_text decode_binary
  decode_parameter none t format = ok SqlValue.null
  decode_parameter (some bytes) t FieldFormat.text = decode_text bytes t
  decode_parameter (some bytes) t FieldFormat.binary = decode_binary bytes t

  -- `Format::format_for`
  module _ (format_for : Format → ℕ → FieldFormat) where
    -- `parameter_format`
    unfoldable pub parameter_format : Format → ℕ → Result ProxyError FieldFormat
    parameter_format (Format.individual codes) index =
        if leb (length codes) index
        then err
            (invalid_input "extended-query parameter format count does not match parameter count")
        else ok (format_for (Format.individual codes) index)
    parameter_format format index = ok (format_for format index)

    -- The loop of `portal_parameters` over `zip(…).enumerate()`
    unfoldable pub decode_from :
        Format → ℕ → List (Option Bytes) → List PgType → Result ProxyError (List SqlValue)
    unfolding parameter_format decode_parameter
    decode_from format index [] types = ok []
    decode_from format index (value ∷ parameters) [] = ok []
    decode_from format index (value ∷ parameters) (t ∷ types) = do
      f ← parameter_format format index
      v ← decode_parameter value t f
      vs ← decode_from format (suc index) parameters types
      ok (v ∷ vs)

    -- `portal_parameters`
    unfoldable pub portal_parameters :
        Format → List (Option Bytes) → List PgType → Result ProxyError (List SqlValue)
    unfolding decode_from
    portal_parameters format parameters types =
        if not (length parameters == length types)
        then err (
            invalid_input (
              String.◌++◌ "prepared statement supplies " (
                String.◌++◌ (print_nat (length parameters)) (
                  String.◌++◌ " values but declares " (
                    String.◌++◌ (print_nat (length types))
                      " parameter types; explicit supported PostgreSQL OIDs are required")))))
        else decode_from format 0 parameters types
