-- ===== src/Text/Decimal/RoundTrip.antt =====
-- An `i64` is read back from its print.
use Prim.Native.Char.{code}
use Prim.Native.String.{String, [], ◌∷◌}
use mathlib.Core.Option
use mathlib.Core.Option.{map-eq-some_iff}
use mongres.Prelude.{
  ℕ, zero, suc, ◌+◌, ◌-◌, ◌*◌, ◌/◌, ◌%◌, ◌^◌, ◌<◌, ◌≤◌, some, ◌≡◌, refl, subst, arith, Bool-cases,
  inl, inr, ◌==◌,
}
use mongres.Prelude.Int.{ℤ, pos, negsuc, InI64}
use mongres.Text.Decimal.{
  digit_char, print_loop, print_nat, to_string, parse_digits, parse_magnitude, parse_i64, negate,
}

code-digit_char : (d : ℕ) → d < 10 → code (digit_char d) ≡ 48 + d
unfolding digit_char
code-digit_char zero h = refl
code-digit_char (suc zero) h = refl
code-digit_char (suc (suc zero)) h = refl
code-digit_char (suc (suc (suc zero))) h = refl
code-digit_char (suc (suc (suc (suc zero)))) h = refl
code-digit_char (suc (suc (suc (suc (suc zero))))) h = refl
code-digit_char (suc (suc (suc (suc (suc (suc zero)))))) h = refl
code-digit_char (suc (suc (suc (suc (suc (suc (suc zero))))))) h = refl
code-digit_char (suc (suc (suc (suc (suc (suc (suc (suc zero)))))))) h = refl
code-digit_char (suc (suc (suc (suc (suc (suc (suc (suc (suc n))))))))) h =
    ground (arith, only_nine n)
  where
    only_nine : (m : ℕ) → m ≡ 0 → code "9" ≡ 48 + (9 + m)
    only_nine m e = rw e

-- Reading the last digit of `n` behind the others gives `n`.
parse_last :
    (most n : ℕ) (s : String)
    → n ≤ most
    → parse_digits most (digit_char (n % 10) ∷ s) (n / 10) ≡ parse_digits most s n
unfolding parse_digits
parse_last most n s h = ground (arith, code-digit_char (n % 10))

parse_digits-print_loop :
    (most fuel n : ℕ) (s : String)
    → n ≤ most
    → n < fuel
    → parse_digits most (print_loop fuel n s) 0 ≡ parse_digits most s n
unfolding print_loop
parse_digits-print_loop most zero n s h lt = absurd (omega arith)
parse_digits-print_loop most (suc fuel) n s h lt = elim (Bool-cases (n / 10 == 0)) [
  | inl small ↦ rw small (ground (arith, parse_last most n s h))
  | inr large ↦ rw large (
      ground (
        arith,
        parse_last most n s h,
        parse_digits-print_loop most fuel (n / 10) (digit_char (n % 10) ∷ s),
      ))
]

abbrev StartsWithDigit : String → Type 0
StartsWithDigit [] = ⊥
StartsWithDigit (c ∷ s) = (48 ≤ code c)

print_loop-StartsWithDigit :
    (fuel n : ℕ) (s : String) → StartsWithDigit s → StartsWithDigit (print_loop fuel n s)
unfolding print_loop
print_loop-StartsWithDigit zero n s h = h
print_loop-StartsWithDigit (suc fuel) n s h =
    let digit : 48 ≤ code (digit_char (n % 10)) = omega (arith, code-digit_char (n % 10)) in
    elim (Bool-cases (n / 10 == 0)) [
      | inl small ↦ rw small digit
      | inr large ↦
          rw large (print_loop-StartsWithDigit fuel (n / 10) (digit_char (n % 10) ∷ s) digit)
    ]

print_nat-StartsWithDigit : (n : ℕ) → StartsWithDigit (print_nat n)
unfolding print_nat print_loop
print_nat-StartsWithDigit n =
    let digit : 48 ≤ code (digit_char (n % 10)) = omega (arith, code-digit_char (n % 10)) in
    elim (Bool-cases (n / 10 == 0)) [
      | inl small ↦ rw small digit
      | inr large ↦
          rw large (print_loop-StartsWithDigit n (n / 10) (digit_char (n % 10) ∷ []) digit)
    ]

-- The fuel of `print_nat` is enough: all of the number is printed.
parse_magnitude-print_nat : (most n : ℕ) → n ≤ most → parse_magnitude most (print_nat n) ≡ some n
parse_magnitude-print_nat most n h = go (print_nat n) (print_nat-StartsWithDigit n) digits
  where
    digits : parse_digits most (print_nat n) 0 ≡ some n
    digits =
        unfold print_nat parse_digits in (parse_digits-print_loop most (suc n) n [] h (omega arith))

    go :
        (s : String)
        → StartsWithDigit s
        → parse_digits most s 0 ≡ some n
        → parse_magnitude most s ≡ some n
    go [] h e = absurd h
    go (c ∷ s) h e = unfold parse_magnitude in e

unsigned :
    (s : String) → StartsWithDigit s → parse_i64 s ≡ Option.map pos (parse_magnitude (2 ^ 63 - 1) s)
unfolding parse_i64
unsigned [] h = absurd h
unsigned (c ∷ s) h = ground arith

-- Every `i64` is read back from its print.
pub parse_i64-to_string : (i : ℤ) → InI64 i → parse_i64 (to_string i) ≡ some i
unfolding to_string
parse_i64-to_string (pos n) h = rw (
  unsigned (print_nat n) (print_nat-StartsWithDigit n),
  parse_magnitude-print_nat (2 ^ 63 - 1) n (omega arith),
)
parse_i64-to_string (negsuc n) h =
    unfold parse_i64 in (rw (parse_magnitude-print_nat (2 ^ 63) (suc n) (omega arith)))

parse_digits-le :
    (most : ℕ) (s : String) (n r : ℕ) → n ≤ most → parse_digits most s n ≡ some r → r ≤ most
unfolding parse_digits
parse_digits-le most [] n r h e = ground arith
parse_digits-le most (c ∷ s) n r h e =
    ground (arith, parse_digits-le most s (n * 10 + (code c - 48)) r)

parse_magnitude-le : (most : ℕ) (s : String) (r : ℕ) → parse_magnitude most s ≡ some r → r ≤ most
unfolding parse_magnitude
parse_magnitude-le most [] r e = cc
parse_magnitude-le most (c ∷ s) r e = parse_digits-le most (c ∷ s) 0 r (omega arith) e

InI64-negate : (n : ℕ) → n ≤ 2 ^ 63 → InI64 (negate n)
InI64-negate zero h = omega arith
InI64-negate (suc n) h = omega arith

positive-InI64 :
    (s : String) (i : ℤ) → Option.map pos (parse_magnitude (2 ^ 63 - 1) s) ≡ some i → InI64 i
positive-InI64 s i e =
    let (m, here, same) = (map-eq-some_iff _ _).0 e in
    let le = parse_magnitude-le (2 ^ 63 - 1) s m here in
    let fits : InI64 (pos m) = omega arith in subst InI64 same fits

-- A parsed `i64` is in range.
pub parse_i64-InI64 : (s : String) (i : ℤ) → parse_i64 s ≡ some i → InI64 i
unfolding parse_i64
parse_i64-InI64 [] i e = cc
parse_i64-InI64 (c ∷ s) i e = elim (Bool-cases (code c == b'-')) [
  | inl minus ↦
      let (m, here, same) = (map-eq-some_iff _ _).0 (rw minus at e) in
      subst InI64 same (InI64-negate m (parse_magnitude-le (2 ^ 63) s m here))
  | inr other ↦ elim (Bool-cases (code c == b'+')) [
    | inl plus ↦ positive-InI64 s i (rw (other, plus) at e)
    | inr digit ↦ positive-InI64 (c ∷ s) i (rw (other, digit) at e)
  ]
]
