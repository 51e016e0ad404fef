-- ===== src/Proxy/Redaction.antt =====
-- `redact_sql_literals` of crates/proxy/src/lib.rs: the SQL text that the log of rejected statements
-- gets, without the contents of string literals.
pub mod Independent
use Prim.Native.Char.{Char, code}
use Prim.Native.String
use Prim.Native.String.{String, [], ◌∷◌}
use mongres.Prelude.{ℕ, ◌+◌, Bool, true, false, ltb, leb, ◌==◌, if◌then◌else◌}

-- The test for a single quote
abbrev pub is_quote : Char → Bool
is_quote c = code c == 0x27

-- `char::len_utf8`
unfoldable pub len_utf8 : Char → ℕ
len_utf8 c =
    if ltb (code c) 0x80
    then 1
    else if ltb (code c) 0x800
    then 2
    else if ltb (code c) 0x10000
    then 3
    else 4

-- The loop, from inside or outside of a literal, with the bytes that are written: in a literal a
-- doubled quote is skipped, outside the length is tested after each push.
unfoldable pub redact_from : Bool → ℕ → String → String
unfolding len_utf8
redact_from true n [] = "'"
redact_from false n [] = ""
redact_from true n (c ∷ []) =
    let out = redact_from false (n + 1) [] in
    let in_string = redact_from true n [] in if is_quote c then String.◌++◌ "'" out else in_string
redact_from true n (c ∷ d ∷ s) =
    let skipped = redact_from true n s in
    let closed = redact_from false (n + 1) (d ∷ s) in
    let in_string = redact_from true n (d ∷ s) in
    if is_quote c then (if is_quote d then skipped else String.◌++◌ "'" closed) else in_string
redact_from false n (c ∷ s) =
    let opened = redact_from true (n + 11) s in
    let copied = redact_from false (n + len_utf8 c) s in
    if is_quote c
    then String.◌++◌ "'<redacted>" (if leb 1024 (n + 11) then "…'" else opened)
    else c ∷ (if leb 1024 (n + len_utf8 c) then "…" else copied)

-- `redact_sql_literals`
unfoldable pub redact_sql_literals : String → String
unfolding redact_from
redact_sql_literals query = redact_from false 0 query
