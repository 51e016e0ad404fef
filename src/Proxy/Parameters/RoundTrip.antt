-- ===== src/Proxy/Parameters/RoundTrip.antt =====
-- An `i64` as a client sends it, in either format, is decoded to itself.
use mongres.Prelude.{
  ℕ, ◌-◌, ◌/◌, ◌%◌, ◌^◌, ◌<◌, String, [], ◌∷◌, some, ◌≡◌, refl, ap, arith, lt→ltb,
}
use mongres.Prelude.Int.{ℤ, pos, negsuc, InI64}
use mongres.Common.{ok}
use mongres.Text.Decimal.{to_string}
use mongres.Text.Decimal.RoundTrip.{parse_i64-to_string}
use mongres.Plan.{SqlValue}
use mongres.Proxy.PgType.{PgType}
use mongres.Proxy.Parameters.{
  Bytes, FieldFormat, Readers, unsigned_of, signed_of, fixed_binary, decode_binary, decode_text,
  decode_string, decode_parameter,
}

-- The eight bytes of a number below 2 ^ 64, the most significant first
abbrev pub eight_bytes : ℕ → Bytes
eight_bytes n =
    n / 2 ^ 56
    ∷ n / 2 ^ 48 % 256
    ∷ n / 2 ^ 40 % 256
    ∷ n / 2 ^ 32 % 256
    ∷ n / 2 ^ 24 % 256
    ∷ n / 2 ^ 16 % 256
    ∷ n / 2 ^ 8 % 256
    ∷ n % 256
    ∷ []

-- Two's complement
abbrev pub to_be_bytes : ℤ → Bytes
to_be_bytes (pos n) = eight_bytes n
to_be_bytes (negsuc n) = eight_bytes (2 ^ 64 - 1 - n)

unsigned_of-eight_bytes : (n : ℕ) → n < 2 ^ 64 → unsigned_of (eight_bytes n) ≡ n
unfolding unsigned_of
unsigned_of-eight_bytes n h = omega arith

signed_of-to_be_bytes : (i : ℤ) → InI64 i → signed_of (2 ^ 63) (to_be_bytes i) ≡ i
unfolding signed_of
signed_of-to_be_bytes (pos n) h =
    rw (signed_of, unsigned_of-eight_bytes n (omega arith), lt→ltb n (2 ^ 63) h) refl
signed_of-to_be_bytes (negsuc n) h =
    rw (signed_of, unsigned_of-eight_bytes (2 ^ 64 - 1 - n) (omega arith)) (ground arith)

-- An `i64` that a client sends as an int8 parameter is decoded to itself: from its eight bytes in
-- two's complement, and from the UTF-8 text of its decimal digits.
pub decode_parameter-to_be_bytes :
    (readers : Readers) (type_name : PgType → String) (oid : PgType → ℕ) (i : ℤ) (text : Bytes)
    → InI64 i
    → readers.from_utf8 text ≡ some (to_string i)
    → (decode_parameter readers type_name oid (some (to_be_bytes i)) PgType.int8 FieldFormat.binary
        ≡ ok (SqlValue.integer i))
      × (decode_parameter readers type_name oid (some text) PgType.int8 FieldFormat.text
          ≡ ok (SqlValue.integer i))
unfolding decode_parameter decode_binary fixed_binary decode_text decode_string
decode_parameter-to_be_bytes readers type_name oid i text range spelled =
    (binary i (signed_of-to_be_bytes i range), rw (spelled, parse_i64-to_string i range) refl)
  where
    binary :
        (j : ℤ)
        → signed_of (2 ^ 63) (to_be_bytes j) ≡ j
        → decode_parameter readers type_name oid
            (some (to_be_bytes j))
            PgType.int8
            FieldFormat.binary
          ≡ ok (SqlValue.integer j)
    binary (pos n) e = ap (λ k. ok (SqlValue.integer k)) e
    binary (negsuc n) e = ap (λ k. ok (SqlValue.integer k)) e
