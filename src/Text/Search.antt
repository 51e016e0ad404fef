-- ===== src/Text/Search.antt =====
-- Texts without the case of their ASCII letters, as code points, and the search for a text in them.
use Prim.Native.Char.{code}
use Prim.Native.String.{String, [], ◌∷◌}
use mathlib.Core.List.{List}
use mongres.Prelude.{ℕ, ◌+◌, Bool, true, false, ◌&&◌, ◌||◌, leb, ◌==◌, if◌then◌else◌}
use mongres.Text.Dots.{is_empty, trim}

-- The code points of a text.
unfoldable pub codes : String → List ℕ
codes [] = List.[]
codes (c ∷ s) = List.◌∷◌ (code c) (codes s)

-- `char::to_ascii_lowercase`
abbrev pub lower : ℕ → ℕ
lower n = if leb b'A' n && leb n b'Z' then n + 32 else n

-- `to_ascii_lowercase`, as code points
unfoldable pub lower_codes : String → List ℕ
lower_codes [] = List.[]
lower_codes (c ∷ s) = List.◌∷◌ (lower (code c)) (lower_codes s)

-- `trim_end_matches(c)`
unfoldable pub trim_end_matches : ℕ → String → String
trim_end_matches c [] = []
trim_end_matches c (d ∷ s) =
    let rest = trim_end_matches c s in if (code d == c) && is_empty rest then [] else d ∷ rest

-- `starts_with`
unfoldable pub starts_with : List ℕ → List ℕ → Bool
starts_with List.[] text = true
starts_with (List.◌∷◌ p pattern) List.[] = false
starts_with (List.◌∷◌ p pattern) (List.◌∷◌ c text) = (p == c) && starts_with pattern text

-- `contains`
unfoldable pub contains : List ℕ → List ℕ → Bool
unfolding starts_with
contains pattern List.[] = starts_with pattern List.[]
contains pattern (List.◌∷◌ c text) = starts_with pattern (List.◌∷◌ c text) || contains pattern text

-- `==`
unfoldable pub equal : List ℕ → List ℕ → Bool
equal List.[] List.[] = true
equal (List.◌∷◌ m s) (List.◌∷◌ n t) = (m == n) && equal s t
equal s t = false

-- `query.trim().trim_end_matches(';').to_ascii_lowercase()`
unfoldable pub normalized : String → List ℕ
unfolding lower_codes trim_end_matches trim
normalized query = lower_codes (trim_end_matches b';' (trim query))
