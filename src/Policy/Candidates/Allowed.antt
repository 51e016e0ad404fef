-- ===== src/Policy/Candidates/Allowed.antt =====
-- Which candidates the allowlist holds.
use mongres.Prelude.{
  String, Bool, true, false, [], ◌∷◌, Option, none, some, ◌≡◌, ◌↔◌, subst, sym, arith, Option-cases,
  inl, inr, if◌then◌else◌,
}
use mongres.Prelude.Int.{ℤ}
use mongres.BTree.{add, contains}
use mongres.Order.{=ₖ_refl, =ₖ_sound}
use mongres.Order.Derived.{list_ord}
use mongres.Order.Text.{text_ord}
use mongres.Text.Decimal.{parse_i64, to_string}
use mongres.Text.Decimal.RoundTrip.{parse_i64-to_string, parse_i64-InI64}
use mongres.Prelude.Int.{InI64}
use mongres.Plan.{SqlValue, StatementPlan}
use mongres.Policy.{
  WriteAmbiguity, ResolutionCandidate, keep_string, keep_integer, format_integer_as_string,
  use_nested_path, reject, candidate_ord,
}
use mongres.Policy.Candidates.{
  parse_integer_losslessly, mixed_type_assignment_value, nested_path_is_safe, allowed_candidates,
  add_value_candidates,
}

abbrev is_canonical : String → Bool
is_canonical s = elim (parse_integer_losslessly s) [ none ↦ false | some n ↦ true ]

-- What a candidate asks of the value of the eligible assignment and of the path.
abbrev pub permits : Bool → Option SqlValue → ResolutionCandidate → Bool
permits nested value reject = true
permits nested value use_nested_path = nested
permits nested (some (SqlValue.string s)) keep_string = true
permits nested value keep_string = false
permits nested (some (SqlValue.string s)) ResolutionCandidate.parse_integer_losslessly =
    is_canonical s
permits nested value ResolutionCandidate.parse_integer_losslessly = false
permits nested (some (SqlValue.integer n)) keep_integer = true
permits nested value keep_integer = false
permits nested (some (SqlValue.integer n)) format_integer_as_string = true
permits nested value format_integer_as_string = false

pub permits-canonical :
    (nested : Bool) (s : String) (n : ℤ)
    → parse_integer_losslessly s ≡ some n
    → permits nested (some (SqlValue.string s)) ResolutionCandidate.parse_integer_losslessly ≡ true
permits-canonical nested s n canonical = ground (arith, canonical)

contains-start :
    (nested : Bool) (c : ResolutionCandidate)
    → contains c (if nested then add use_nested_path (reject ∷ []) else reject ∷ [])
      ≡ permits nested none c
unfolding contains add
contains-start true c = ground arith
contains-start false c = ground arith

contains-candidates :
    (nested : Bool) (value : Option SqlValue) (c : ResolutionCandidate)
    → contains c (
        add_value_candidates value
          (if nested then add use_nested_path (reject ∷ []) else reject ∷ []))
      ≡ permits nested value c
unfolding contains add
contains-candidates true value c = ground arith
contains-candidates false value c = ground arith

-- The allowlist by the code's own tests of the value and the path.
pub contains-allowed_candidates :
    (plan : StatementPlan) (a : WriteAmbiguity) (c : ResolutionCandidate)
    → contains c (allowed_candidates plan a)
      ≡ permits (nested_path_is_safe a) (mixed_type_assignment_value plan a) c
unfolding allowed_candidates
contains-allowed_candidates plan a c =
    contains-candidates (nested_path_is_safe a) (mixed_type_assignment_value plan a) c

parse_integer_losslessly_sound :
    (s : String) (n : ℤ) → parse_integer_losslessly s ≡ some n → (s ≡ to_string n) × InI64 n
unfolding parse_integer_losslessly
parse_integer_losslessly_sound s n e = elim (Option-cases (parse_i64 s)) [
  | inl refused ↦ absurd (ground (arith, refused))
  | inr (m, parsed) ↦
      let same : m ≡ n = ground (arith, parsed) in
      (ground (arith, parsed, =ₖ_sound (to_string m) s), rw same at (parse_i64-InI64 s m parsed))
]

parse_integer_losslessly-to_string :
    (n : ℤ) → InI64 n → parse_integer_losslessly (to_string n) ≡ some n
unfolding parse_integer_losslessly
parse_integer_losslessly-to_string n fits =
    ground (arith, parse_i64-to_string n fits, =ₖ_refl (to_string n))

-- A text is parsed losslessly, with the result `n`, exactly if it is the print of `n` and `n` is in
-- the range of `i64`.
pub parse_integer_losslessly_iff :
    (s : String) (n : ℤ) → (parse_integer_losslessly s ≡ some n) ↔ ((s ≡ to_string n) × InI64 n)
parse_integer_losslessly_iff s n = (
  parse_integer_losslessly_sound s n,
  λ (print, fits).
      subst (λ t. parse_integer_losslessly t ≡ some n) (sym print)
        (parse_integer_losslessly-to_string n fits),
)
