-- ===== src/Schema/Path.antt =====
-- `FieldPath` of crates/schema-discovery/src/lib.rs: the segments of a path, so that a literal dotted
-- key and a nested path are different paths.
use mongres.Prelude.{String, Bool, false, List, [], ◌∷◌, ◌++◌}
use mongres.Text.{join_dots, contains_char}

-- The newtype around `Vec<String>`; its derived order is the lexicographic one of the segments.
abbrev pub FieldPath : Type 0
FieldPath = List String

-- `FieldPath::top_level`
abbrev pub top_level : String → FieldPath
top_level name = name ∷ []

-- `FieldPath::child`
abbrev pub child : FieldPath → String → FieldPath
child path name = path ++ name ∷ []

-- `FieldPath::display_name`
abbrev pub display_name : FieldPath → String
display_name path = join_dots path

-- `FieldPath::segments`
abbrev pub segments : FieldPath → List String
segments path = path

-- `FieldPath::is_literal_dotted_key`
unfoldable pub is_literal_dotted_key : FieldPath → Bool
unfolding contains_char
is_literal_dotted_key [] = false
is_literal_dotted_key (s ∷ []) = contains_char b'.' s
is_literal_dotted_key (s ∷ t ∷ r) = false
