-- ===== src/Catalog/Columns.antt =====
-- Which columns a catalog has, and of which fields.
use mathlib.Core.List.{append_assoc, append-nil}
use mongres.Prelude.{
  ℕ, suc, ◌+◌, ◌^◌, String, true, ◌||◌, ltb, List, [], ◌∷◌, ◌++◌, length, map, any, if◌then◌else◌,
  ◌≡◌, refl, sym, ◌∙◌, ap, arith, All, Bool-cases, inl, inr,
}
use mongres.Order.{◌=ₖ◌, =ₖ_sound, =ₖ_refl}
use mongres.Order.Text.{text_ord}
use mongres.BTree.{insert, get, contains}
use mongres.BTree.Lookup.{get-insert}
use mongres.BTree.Sorted.{IsSorted, contains_of_Below, keys-insert-IsSorted}
use mongres.Common.{ok}
use mongres.Common.Results.{>>=-eq-ok, ok_injective}
use mongres.Schema.{display_name, FieldProfile, SchemaProfile, is_ambiguous}
use mongres.Schema.Infer.{or_default}
use mongres.Catalog.{
  TableMetadata, ColumnMetadata, CollectionCatalog, column_from_fields, group_fields,
  project_columns, project_collection,
}

abbrev Groups : Type 0
Groups = List (String × List FieldProfile)

-- The fields of the display name, in their order.
abbrev pub fields_named : String → List FieldProfile → List FieldProfile
fields_named name [] = []
fields_named name (f ∷ fs) =
    let rest = fields_named name fs in if name =ₖ display_name f.path then f ∷ rest else rest

get-group_fields :
    (name : String) (fs : List FieldProfile) (groups : Groups)
    → or_default [] (get name (group_fields groups fs))
      ≡ or_default [] (get name groups) ++ fields_named name fs
unfolding group_fields
get-group_fields name [] groups = sym (append-nil (or_default [] (get name groups)))
get-group_fields name (f ∷ fs) groups =
    let other = display_name f.path in
    let grown = or_default [] (get other groups) ++ f ∷ [] in
    let there = get-group_fields name fs (insert other grown groups) in
    let now = get-insert name other grown groups in
    elim (Bool-cases (name =ₖ other)) [
      | inl same ↦
          let here : or_default [] (get name (insert other grown groups)) ≡ grown =
            ground (arith, now, same) in
          let is_other = =ₖ_sound name other same in
          rw (same) (
            there
            ∙ ap (λ xs. xs ++ fields_named name fs) here
            ∙ append_assoc (or_default [] (get other groups)) (f ∷ []) (fields_named name fs)
            ∙ ap (λ k. or_default [] (get k groups) ++ f ∷ fields_named name fs) (sym is_other))
      | inr different ↦
          let here : get name (insert other grown groups) ≡ get name groups =
            ground (arith, now, different) in
          rw (different) (there ∙ ap (λ found. or_default [] found ++ fields_named name fs) here)
    ]

group_fields-IsSorted :
    (fs : List FieldProfile) (groups : Groups)
    → IsSorted (map (λ g. g.0) groups)
    → IsSorted (map (λ g. g.0) (group_fields groups fs))
unfolding group_fields
group_fields-IsSorted [] groups h = h
group_fields-IsSorted (f ∷ fs) groups h =
    let name = display_name f.path in
    let grown = or_default [] (get name groups) ++ f ∷ [] in
    group_fields-IsSorted fs (insert name grown groups) (keys-insert-IsSorted name grown groups h)

-- The entries of a sorted map are what `get` finds.
All-of_get :
    (F : String → List FieldProfile) (groups : Groups)
    → IsSorted (map (λ g. g.0) groups)
    → ((k : String)
        → contains k (map (λ g. g.0) groups) ≡ true
        → or_default [] (get k groups) ≡ F k)
    → All (λ g. g.1 ≡ F g.0) groups
unfolding get contains
All-of_get F [] sorted h = tt
All-of_get F ((j, fs) ∷ groups) (below, sorted) h = (
  ground (arith, h j (ground (arith, =ₖ_refl j)), =ₖ_refl j),
  All-of_get F groups sorted (λ k found. ground (
    arith,
    found,
    h k (ground (arith, found)),
    =ₖ_sound k j,
    contains_of_Below j (map (λ g. g.0) groups) below,
  )),
)

nothing_yet :
    (k : String) (fs : List FieldProfile)
    → or_default [] (get {V = List FieldProfile} k []) ++ fields_named k fs ≡ fields_named k fs
unfolding get
nothing_yet k fs = refl

-- The columns that `project_columns` makes of groups, from an index on.
unfoldable pub Describes : List FieldProfile → ℕ → List ColumnMetadata → Type 0
Describes fields index [] = Unit
Describes fields index (c ∷ columns) =
    (c.ordinal_position ≡ index + 1)
    × (c.source_paths ≡ map (λ f. f.path) (fields_named c.column_name fields))
    × (c.ambiguous ≡ (
        ltb 1 (length (fields_named c.column_name fields))
        || any is_ambiguous (fields_named c.column_name fields)))
    × Describes fields (suc index) columns

column-named :
    (table : TableMetadata) (name : String) (index : ℕ) (fs : List FieldProfile)
    (c : ColumnMetadata)
    → column_from_fields table name index fs ≡ ok c
    → (c.column_name ≡ name)
      × (c.ordinal_position ≡ index + 1)
      × (c.source_paths ≡ map (λ f. f.path) fs)
      × (c.ambiguous ≡ (ltb 1 (length fs) || any is_ambiguous fs))
unfolding column_from_fields
column-named table name index fs c e = elim (Bool-cases (ltb (index + 1) (2 ^ 32))) [
  | inl small ↦
      let same = ok_injective (rw (column_from_fields, small) at e) in
      rw (← same) (refl, refl, refl, refl)
  | inr large ↦ absurd (ground (arith, large))
]

project_columns-Describes :
    (fields : List FieldProfile) (table : TableMetadata) (groups : Groups) (index : ℕ)
    (columns : List ColumnMetadata)
    → project_columns table index groups ≡ ok columns
    → All (λ g. g.1 ≡ fields_named g.0 fields) groups
    → (map (λ c. c.column_name) columns ≡ map (λ g. g.0) groups) × Describes fields index columns
unfolding project_columns Describes
project_columns-Describes fields table [] index columns e h = rw (← ok_injective e) (refl, tt)
project_columns-Describes fields table ((name, fs) ∷ groups) index columns e (p, h) =
    let (c, projected, e') = >>=-eq-ok (column_from_fields table name index fs) _ e in
    let (cs, rest, e'') = >>=-eq-ok (project_columns table (suc index) groups) _ e' in
    let (named, ordinal, sources, ambiguity) = column-named table name index fs c projected in
    let (names, described) = project_columns-Describes fields table groups (suc index) cs rest h in
    let grouped : fs ≡ fields_named c.column_name fields =
      p ∙ ap (λ n. fields_named n fields) (sym named) in
    rw (← ok_injective e'') (
      rw (named, names) refl,
      (
        ordinal,
        sources ∙ ap (map (λ f. f.path)) grouped,
        ambiguity
            ∙ ap (λ (xs : List FieldProfile). ltb 1 (length xs) || any is_ambiguous xs) grouped,
        described,
      ),
    )

-- Where the projection returns a catalog, its columns are strictly sorted by name and numbered from 1; each has, as its source paths, the paths of all the fields of its
-- name, in the order of the profile, and is ambiguous exactly if these are several or one of them is
-- ambiguous.
pub project_collection-Describes :
    (schema_name table_name : String) (profile : SchemaProfile) (catalog : CollectionCatalog)
    → project_collection schema_name table_name profile ≡ ok catalog
    → IsSorted (map (λ c. c.column_name) catalog.columns)
      × Describes profile.fields 0 catalog.columns
unfolding project_collection
project_collection-Describes schema_name table_name profile catalog e =
    let table : TableMetadata = record { schema_name = schema_name; table_name = table_name } in
    let groups = group_fields [] profile.fields in
    let sorted = group_fields-IsSorted profile.fields [] tt in
    let (columns, projected, e') = >>=-eq-ok (project_columns table 0 groups) _ e in
    let grouped =
      All-of_get (λ name. fields_named name profile.fields) groups sorted
        (λ k found. get-group_fields k profile.fields [] ∙ nothing_yet k profile.fields) in
    let (names, described) =
      project_columns-Describes profile.fields table groups 0 columns projected grouped in
    rw (← ok_injective e') (rw names sorted, described)
