-- ===== src/Text/Decimal.antt =====
-- `i64::to_string`, `str::parse::<i64>` and `str::parse::<usize>`. The loop that prints takes the
-- number's successor as its fuel; each round divides by ten, so that this is enough
-- (`Text/Decimal/RoundTrip.antt`).
pub mod RoundTrip
use Prim.Native.Char.{Char, code}
use Prim.Native.String.{String, [], ◌∷◌}
use mongres.Prelude.{
  ℕ, zero, suc, ◌+◌, ◌-◌, ◌*◌, ◌/◌, ◌%◌, ◌^◌, Bool, ◌&&◌, Option, none, some, leb, ◌==◌,
  if◌then◌else◌,
}
use mongres.Prelude.Int.{ℤ, pos, negsuc}
use mathlib.Core.Option

unfoldable pub digit_char : ℕ → Char
digit_char zero = "0"
digit_char (suc zero) = "1"
digit_char (suc (suc zero)) = "2"
digit_char (suc (suc (suc zero))) = "3"
digit_char (suc (suc (suc (suc zero)))) = "4"
digit_char (suc (suc (suc (suc (suc zero))))) = "5"
digit_char (suc (suc (suc (suc (suc (suc zero)))))) = "6"
digit_char (suc (suc (suc (suc (suc (suc (suc zero))))))) = "7"
digit_char (suc (suc (suc (suc (suc (suc (suc (suc zero)))))))) = "8"
digit_char (suc (suc (suc (suc (suc (suc (suc (suc (suc n))))))))) = "9"

print_loop : ℕ → ℕ → String → String
print_loop zero n acc = acc
print_loop (suc fuel) n acc =
    let rest = print_loop fuel (n / 10) (digit_char (n % 10) ∷ acc) in
    if n / 10 == 0 then digit_char (n % 10) ∷ acc else rest

unfoldable pub print_nat : ℕ → String
unfolding print_loop digit_char
print_nat n = print_loop (suc n) n []

-- `i64::to_string`
unfoldable pub to_string : ℤ → String
unfolding print_nat
to_string (pos n) = print_nat n
to_string (negsuc n) = "-" ∷ print_nat (suc n)

abbrev is_digit : Char → Bool
is_digit c = leb b'0' (code c) && leb (code c) b'9'

-- The digits behind a number that is read already; a value above `most` is an error.
parse_digits : ℕ → String → ℕ → Option ℕ
parse_digits most [] n = some n
parse_digits most (c ∷ s) n =
    let m = n * 10 + (code c - b'0') in
    if is_digit c && leb m most then parse_digits most s m else none

-- At least one digit.
parse_magnitude : ℕ → String → Option ℕ
parse_magnitude most [] = none
parse_magnitude most (c ∷ s) = parse_digits most (c ∷ s) 0

abbrev pub negate : ℕ → ℤ
negate zero = pos 0
negate (suc n) = negsuc n

-- `parse::<i64>()`: a sign, then digits.
unfoldable pub parse_i64 : String → Option ℤ
unfolding parse_magnitude parse_digits
parse_i64 [] = none
parse_i64 (c ∷ s) =
    if code c == b'-'
    then Option.map negate (parse_magnitude (2 ^ 63) s)
    else if code c == b'+'
    then Option.map pos (parse_magnitude (2 ^ 63 - 1) s)
    else Option.map pos (parse_magnitude (2 ^ 63 - 1) (c ∷ s))

-- `parse::<usize>()` on a machine with 64 bits
unfoldable pub parse_usize : String → Option ℕ
unfolding parse_magnitude parse_digits
parse_usize [] = none
parse_usize (c ∷ s) =
    if code c == b'+' then parse_magnitude (2 ^ 64 - 1) s else parse_magnitude (2 ^ 64 - 1) (c ∷ s)

-- `parse::<i32>()` and `parse::<i16>()`, with 2 ^ 31 and 2 ^ 15 as the distance of the least number.
unfoldable pub parse_signed : ℕ → String → Option ℤ
unfolding parse_magnitude parse_digits
parse_signed least [] = none
parse_signed least (c ∷ s) =
    if code c == b'-'
    then Option.map negate (parse_magnitude least s)
    else if code c == b'+'
    then Option.map pos (parse_magnitude (least - 1) s)
    else Option.map pos (parse_magnitude (least - 1) (c ∷ s))
