-- ===== src/Text/Dots.antt =====
-- Texts walked character by character: joining and splitting on a dot, prefixes, and whitespace.
use Prim.Native.Char.{Char, code}
use Prim.Native.String
use Prim.Native.String.{String, [], ◌∷◌}
use mathlib.Core.List.{List}
use mongres.Prelude.{
  ℕ, zero, suc, Bool, true, false, ◌&&◌, ◌||◌, Option, none, some, leb, ◌==◌, if◌then◌else◌,
}

-- `segments.join(".")`
unfoldable pub join_dots : List String → String
join_dots List.[] = ""
join_dots (List.◌∷◌ s List.[]) = s
join_dots (List.◌∷◌ s (List.◌∷◌ t r)) = String.◌++◌ s (String.◌++◌ "." (join_dots (List.◌∷◌ t r)))

-- `text.contains(c)` for a character given by its code point
unfoldable pub contains_char : ℕ → String → Bool
contains_char c [] = false
contains_char c (d ∷ s) = (code d == c) || contains_char c s

-- `text.starts_with(c)`
unfoldable pub starts_with_char : ℕ → String → Bool
starts_with_char c [] = false
starts_with_char c (d ∷ s) = code d == c

-- `text.strip_prefix(c)`
unfoldable pub strip_prefix_char : ℕ → String → Option String
strip_prefix_char c [] = none
strip_prefix_char c (d ∷ s) = if code d == c then some s else none

unfoldable pub is_empty : String → Bool
is_empty [] = true
is_empty (c ∷ s) = false

-- `text.chars().take(n).collect()`
unfoldable pub take_chars : ℕ → String → String
take_chars zero s = []
take_chars (suc n) [] = []
take_chars (suc n) (c ∷ s) = c ∷ take_chars n s

-- `char::is_whitespace`: the characters with Unicode's property White_Space
unfoldable pub is_whitespace : Char → Bool
is_whitespace c =
    let n = code c in
    (leb 9 n && leb n 13)
    || (n == 0x20)
    || (n == 0x85)
    || (n == 0xa0)
    || (n == 0x1680)
    || (leb 0x2000 n && leb n 0x200a)
    || (n == 0x2028)
    || (n == 0x2029)
    || (n == 0x202f)
    || (n == 0x205f)
    || (n == 0x3000)

unfoldable pub trim_start : String → String
unfolding is_whitespace
trim_start [] = []
trim_start (c ∷ s) = if is_whitespace c then trim_start s else c ∷ s

-- A text of whitespace alone goes, any other keeps its last character that is none.
unfoldable pub trim_end : String → String
unfolding is_whitespace
trim_end [] = []
trim_end (c ∷ s) =
    let rest = trim_end s in if is_whitespace c && is_empty rest then [] else c ∷ rest

-- `text.trim()`
unfoldable pub trim : String → String
unfolding trim_start trim_end
trim s = trim_end (trim_start s)

-- `text.split(c)`: one piece more than there are separators
unfoldable pub split_char : ℕ → String → List String
split_char c [] = List.◌∷◌ [] List.[]
split_char c (d ∷ s) =
    let rest = split_char c s in
    if code d == c then List.◌∷◌ [] rest else elim rest [
      | List.[] ↦ List.◌∷◌ (d ∷ []) List.[]
      | List.◌∷◌ piece pieces ↦ List.◌∷◌ (d ∷ piece) pieces
    ]
