-- ===== src/Schema/Names/Accepted.antt =====
-- Which lists of collection names are accepted, and as what.
use mongres.Prelude.{
  suc, ◌+◌, String, false, ◌||◌, List, [], ◌∷◌, length, ◌≡◌, ◌≢◌, refl, arith, All,
}
use mongres.Order.{◌=ₖ◌, =ₖ_sound}
use mongres.Order.Text.{text_ord}
use mongres.Text.{is_empty, trim}
use mongres.BTree.{add, contains}
use mongres.BTree.Lookup.{contains-add}
use mongres.BTree.Sorted.{IsSorted, add-IsSorted}
use mongres.Common.{ok}
use mongres.Schema.Names.{metadata_collection, collect_collection_names, validated_collection_names}

-- A name that may be exposed: not blank, without surrounding whitespace, not the metadata's.
abbrev pub IsExposable : String → Type 0
IsExposable n = (is_empty (trim n) ≡ false) × (n ≡ trim n) × ((n =ₖ metadata_collection) ≡ false)

length-add :
    (n : String) (s : List String) → contains n s ≡ false → length (add n s) ≡ suc (length s)
unfolding add contains
length-add n [] h = refl
length-add n (m ∷ s) h = ground (arith, length-add n s)

-- What one accepted name says.
collect-ok :
    (n : String) (names rest out : List String)
    → collect_collection_names names (n ∷ rest) ≡ ok out
    → IsExposable n
      × (contains n names ≡ false)
      × (collect_collection_names (add n names) rest ≡ ok out)
unfolding collect_collection_names
collect-ok n names rest out e =
    ((ground arith, ground (arith, =ₖ_sound n (trim n)), ground arith), ground arith, ground arith)

collect-nil : (names out : List String) → collect_collection_names names [] ≡ ok out → names ≡ out
unfolding collect_collection_names
collect-nil names out e = ground arith

collect_collection_names-contains :
    (k : String) (ns names out : List String)
    → collect_collection_names names ns ≡ ok out
    → contains k out ≡ (contains k names || contains k ns)
unfolding contains
collect_collection_names-contains k [] names out e = ground (arith, collect-nil names out e)
collect_collection_names-contains k (n ∷ rest) names out e =
    let (exposable, new, e') = collect-ok n names rest out e in
    ground
      (arith, collect_collection_names-contains k rest (add n names) out e', contains-add k n names)

collect_collection_names-IsSorted :
    (ns names out : List String)
    → collect_collection_names names ns ≡ ok out
    → IsSorted names
    → IsSorted out
collect_collection_names-IsSorted [] names out e sorted = rw (← collect-nil names out e) sorted
collect_collection_names-IsSorted (n ∷ rest) names out e sorted =
    let (exposable, new, e') = collect-ok n names rest out e in
    collect_collection_names-IsSorted rest (add n names) out e' (add-IsSorted n names sorted)

length-collect_collection_names :
    (ns names out : List String)
    → collect_collection_names names ns ≡ ok out
    → length out ≡ length names + length ns
length-collect_collection_names [] names out e = ground (arith, collect-nil names out e)
length-collect_collection_names (n ∷ rest) names out e =
    let (exposable, new, e') = collect-ok n names rest out e in
    omega (arith, length-collect_collection_names rest (add n names) out e', length-add n names new)

collect_collection_names-IsExposable :
    (ns names out : List String) → collect_collection_names names ns ≡ ok out → All IsExposable ns
collect_collection_names-IsExposable [] names out e = tt
collect_collection_names-IsExposable (n ∷ rest) names out e =
    let (exposable, new, e') = collect-ok n names rest out e in
    (exposable, collect_collection_names-IsExposable rest (add n names) out e')

-- An accepted list of names is not empty and each of its names may be exposed. The result is strictly
-- sorted and has the same names, as many as the list.
pub validated_collection_names-ok :
    (names out : List String)
    → validated_collection_names names ≡ ok out
    → (names ≢ [])
      × All IsExposable names
      × IsSorted out
      × ((k : String) → contains k out ≡ contains k names)
      × (length out ≡ length names)
unfolding validated_collection_names contains
validated_collection_names-ok [] out e = absurd (ground arith)
validated_collection_names-ok (n ∷ rest) out e = (
  λ h. cc,
  collect_collection_names-IsExposable (n ∷ rest) [] out e,
  collect_collection_names-IsSorted (n ∷ rest) [] out e tt,
  λ k. collect_collection_names-contains k (n ∷ rest) [] out e,
  omega (arith, length-collect_collection_names (n ∷ rest) [] out e),
)
