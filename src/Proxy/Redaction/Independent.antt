-- ===== src/Proxy/Redaction/Independent.antt =====
-- What is redacted does not depend on the contents of a literal.
use Prim.Native.Char.{Char}
use Prim.Native.String
use Prim.Native.String.{String, [], ◌∷◌}
use mongres.Prelude.{
  ℕ, ◌+◌, Bool, true, false, not, ◌||◌, ◌≡◌, refl, sym, ap, ◌∙◌, arith, Bool-cases, inl, inr, leb,
  if◌then◌else◌,
}
use text.Mathlib.TextLemmas.{nil-append, cons-append}
use mongres.Proxy.Redaction.{is_quote, len_utf8, redact_from, redact_sql_literals}

abbrev pub no_quote : String → Bool
no_quote [] = true
no_quote (c ∷ s) = not (is_quote c || not (no_quote s))

-- The text ends inside of a literal, if it begins inside or outside of one: every quote leads in or
-- out.
abbrev pub ends_inside : Bool → String → Bool
ends_inside inside [] = inside
ends_inside inside (c ∷ s) = ends_inside (if is_quote c then not inside else inside) s

-- A character of a literal that is no quote is skipped.
plain_lem :
    (n : ℕ) (c : Char) (rest : String)
    → is_quote c ≡ false
    → redact_from true n (c ∷ rest) ≡ redact_from true n rest
unfolding redact_from
plain_lem n c [] plain = rw plain refl
plain_lem n c (d ∷ rest) plain = rw plain refl

skip_lem :
    (n : ℕ) (literal rest : String)
    → no_quote literal ≡ true
    → redact_from true n (String.◌++◌ literal rest) ≡ redact_from true n rest
skip_lem n [] rest h = ap (redact_from true n) (nil-append rest)
skip_lem n (c ∷ s) rest h =
    ap (redact_from true n) (cons-append c s rest)
    ∙ plain_lem n c (String.◌++◌ s rest) (ground (arith, h))
    ∙ skip_lem n s rest (ground (arith, h))

-- Two texts that are redacted alike from any length on are so behind a character outside.
outside_lem :
    (n : ℕ) (c : Char) (s t : String)
    → ((m : ℕ)
        → redact_from (if is_quote c then true else false) m s
          ≡ redact_from (if is_quote c then true else false) m t)
    → redact_from false n (c ∷ s) ≡ redact_from false n (c ∷ t)
unfolding redact_from
outside_lem n c s t same = elim (Bool-cases (is_quote c)) [
  | inl quote ↦ rw quote (
      ap (λ out. String.◌++◌ "'<redacted>" (if leb 1024 (n + 11) then "…'" else out))
        (rw quote at same (n + 11)))
  | inr plain ↦ rw plain (
      ap (λ out. c ∷ (if leb 1024 (n + len_utf8 c) then "…" else out))
        (rw plain at same (n + len_utf8 c)))
]

-- Two texts that are redacted alike from outside are so behind a quote that closes a literal.
closed_lem :
    (n : ℕ) (c d : Char) (s t : String)
    → is_quote c ≡ true
    → is_quote d ≡ false
    → redact_from false (n + 1) (d ∷ s) ≡ redact_from false (n + 1) (d ∷ t)
    → redact_from true n (c ∷ d ∷ s) ≡ redact_from true n (c ∷ d ∷ t)
unfolding redact_from
closed_lem n c d s t quote plain same =
    rw (quote, plain) (ap (λ out. String.◌++◌ "'" out) (rw plain at same))

-- A doubled quote is skipped.
doubled_lem :
    (n : ℕ) (c d : Char) (s : String)
    → is_quote c ≡ true
    → is_quote d ≡ true
    → redact_from true n (c ∷ d ∷ s) ≡ redact_from true n s
unfolding redact_from
doubled_lem n c d s first second = rw (first, second) refl

abbrev tail : String → String
tail [] = []
tail (c ∷ s) = s

module _ (literal other rest : String) (is_literal : no_quote literal ≡ true)
    (is_other : no_quote other ≡ true) where
  -- Behind this text, the two literals are redacted alike.
  abbrev Alike : String → Type 0
  Alike before =
      (inside : Bool) (n : ℕ)
      → ends_inside inside before ≡ true
      → redact_from inside n (String.◌++◌ before (String.◌++◌ literal rest))
        ≡ redact_from inside n (String.◌++◌ before (String.◌++◌ other rest))

  nil-Alike : Alike []
  nil-Alike true n h =
      rw (nil-append (String.◌++◌ literal rest), nil-append (String.◌++◌ other rest))
        (skip_lem n literal rest is_literal ∙ sym (skip_lem n other rest is_other))
  nil-Alike false n h = absurd (ground arith)

  quote-Alike :
      (c : Char) (s : String) (n : ℕ)
      → is_quote c ≡ true
      → ends_inside true (c ∷ s) ≡ true
      → Alike s
      → Alike (tail s)
      → redact_from true n (c ∷ String.◌++◌ s (String.◌++◌ literal rest))
        ≡ redact_from true n (c ∷ String.◌++◌ s (String.◌++◌ other rest))
  quote-Alike c [] n quote h here below = absurd (ground (arith, quote))
  quote-Alike c (d ∷ s) n quote h here below = elim (Bool-cases (is_quote d)) [
    | inl doubled ↦
        rw (cons-append d s (String.◌++◌ literal rest), cons-append d s (String.◌++◌ other rest))
          (doubled_lem n c d _ quote doubled
            ∙ below true n (ground (arith, quote, doubled))
            ∙ sym (doubled_lem n c d _ quote doubled))
    | inr plain ↦
        rw (cons-append d s (String.◌++◌ literal rest), cons-append d s (String.◌++◌ other rest))
          (closed_lem n c d _ _ quote plain (
            rw
              (cons-append d s (String.◌++◌ literal rest), cons-append d s (String.◌++◌ other rest))
              at (here false (n + 1) (ground (arith, quote, plain)))))
  ]

  cons-Alike : (c : Char) (s : String) → Alike s → Alike (tail s) → Alike (c ∷ s)
  cons-Alike c s here below false n h =
      rw (cons-append c s (String.◌++◌ literal rest), cons-append c s (String.◌++◌ other rest))
        (outside_lem n c _ _ (λ m. here (if is_quote c then true else false) m (ground (arith, h))))
  cons-Alike c s here below true n h = elim (Bool-cases (is_quote c)) [
    | inl quote ↦
        rw (cons-append c s (String.◌++◌ literal rest), cons-append c s (String.◌++◌ other rest))
          (quote-Alike c s n quote h here below)
    | inr plain ↦
        rw (cons-append c s (String.◌++◌ literal rest), cons-append c s (String.◌++◌ other rest))
          (plain_lem n c _ plain
            ∙ here true n (ground (arith, h, plain))
            ∙ sym (plain_lem n c _ plain))
  ]

  all-Alike : (before : String) → Alike before × Alike (tail before)
  all-Alike [] = (nil-Alike, nil-Alike)
  all-Alike (c ∷ s) = let (here, below) = all-Alike s in (cons-Alike c s here below, here)

-- The redacted text does not depend on what a string literal contains: where the text before it ends
-- inside of a literal, any two contents without quotes give the same result, whatever follows.
pub redact_sql_literals-literal :
    (before literal other rest : String)
    → ends_inside false before ≡ true
    → no_quote literal ≡ true
    → no_quote other ≡ true
    → redact_sql_literals (String.◌++◌ before (String.◌++◌ literal rest))
      ≡ redact_sql_literals (String.◌++◌ before (String.◌++◌ other rest))
unfolding redact_sql_literals
redact_sql_literals-literal before literal other rest inside is_literal is_other =
    (all-Alike literal other rest is_literal is_other before).0 false 0 inside
