-- ===== src/Schema/Persist/RoundTrip.antt =====
-- What is loaded after a discovery.
use mongres.Prelude.{
  ℕ, String, List, [], ◌∷◌, Option, some, ◌≡◌, ◌≢◌, ◌⊎◌, refl, sym, ap, ◌∙◌, inl, inr, arith,
  Bool-cases, ◌==◌,
}
use mongres.Order.Text.{text_ord}
use mongres.Common.{Result, ok, err}
use mongres.Common.Results.{Result-cases}
use mongres.BTree.{insert}
use mongres.BTree.Sorted.{Below, IsSorted}
use mongres.Schema.{SchemaProfile}
use mongres.Schema.Names.{metadata_collection, validated_collection_names}
use mongres.Schema.Names.Accepted.{validated_collection_names-ok}
use mongres.Schema.Persist.{
  StoredSchemaProfile, Database, and_then, discover_collection, persist_profile,
  discover_and_persist_collection, discover_each, discover_and_persist_collections,
  load_persisted_profile, load_each, load_required_persisted_profiles,
}

-- A successful action, taken apart.
pub and_then-ok :
    {W A B : Type 0} (r : Result String A × W) (next : A → W → Result String B × W) (b : B) (w : W)
    → and_then r next ≡ (ok b, w)
    → (a : A) × (v : W) × (r ≡ (ok a, v)) × (next a v ≡ (ok b, w))
unfolding and_then
and_then-ok (ok a, v) next b w h = (a, v, refl, h)
and_then-ok (err e, v) next b w h = cc

and_then-same :
    {W A B : Type 0} (r : Result String A × W) (f : A → Result String B)
    → (and_then r (λ a w. (f a, w))).1 ≡ r.1
unfolding and_then
and_then-same (ok a, w) f = refl
and_then-same (err e, w) f = refl

module _ (database : Database) where
  open database use {World, Record}

  -- What a document database does with the metadata: `stored` is the record of a collection in a world.
  -- A read of documents or of a record changes no record, and a record that is read is the stored one.
  -- A replacement changes one record at most, and it stores its record when it succeeds. What is
  -- serialized is deserialized to itself.
  pub record IsDatabase : Type 0 where
    pub stored : String → World → Option Record
    pub stored-find : (c k : String) (w : World) → stored k (database.find c w).1 ≡ stored k w
    pub stored-find_one :
        (n k : String) (w : World)
        → stored k (database.find_one metadata_collection database.name n w).1 ≡ stored k w
    pub find_one-ok :
        (n : String) (w : World) (r : Option Record)
        → (database.find_one metadata_collection database.name n w).0 ≡ ok r
        → r ≡ stored n w
    pub stored-replace_one :
        (n : String) (r : Record) (w : World)
        → (database.replace_one metadata_collection database.name n r w).0 ≡ ok tt
        → stored n (database.replace_one metadata_collection database.name n r w).1 ≡ some r
    pub stored-replace_other :
        (n k : String) (r : Record) (w : World)
        → k ≢ n
        → stored k (database.replace_one metadata_collection database.name n r w).1 ≡ stored k w
    pub from_document-to_document :
        (s : StoredSchemaProfile) (r : Record)
        → database.to_document s ≡ ok r
        → database.from_document r ≡ ok s

module _ (database : Database) (laws : IsDatabase database) where
  open database use {World, Record}

  -- The profile of a collection is persisted.
  abbrev IsPersisted : String → SchemaProfile → World → Type 0
  IsPersisted n profile w =
      (r : Record) × (laws.stored n w ≡ some r)
      × (database.from_document r
          ≡ ok (record { database = database.name; collection = n; profile = profile }))

  -- One of the reads fails with `e` that loading these names makes, in this order and from this world.
  abbrev pub FailsAt : List String → World → String → Type 0
  FailsAt [] w e = ⊥
  FailsAt (n ∷ names) w e =
      let read = database.find_one metadata_collection database.name n w in
      (read.0 ≡ err e) ⊎ ((found : Option Record) × (read.0 ≡ ok found) × FailsAt names read.1 e)

  persist_profile-IsPersisted :
      (n : String) (profile : SchemaProfile) (w w' : World)
      → persist_profile database n profile w ≡ (ok tt, w')
      → IsPersisted n profile w' × ((k : String) → k ≢ n → laws.stored k w' ≡ laws.stored k w)
  unfolding persist_profile
  persist_profile-IsPersisted n profile w w' h =
      let (r, v, encoded, h1) = and_then-ok _ _ tt w' h in
      let now : v ≡ w = sym (ap (λ p. p.1) encoded) in
      let replaced : database.replace_one metadata_collection database.name n r w ≡ (ok tt, w') =
        rw (now) at h1 in
      (
        (
          r,
          ap (λ p. laws.stored n p.1) (sym replaced)
              ∙ laws.stored-replace_one n r w (ap (λ p. p.0) replaced),
          laws.from_document-to_document _ r (ap (λ p. p.0) encoded),
        ),
        λ k other.
            ap (λ p. laws.stored k p.1) (sym replaced) ∙ laws.stored-replace_other n k r w other,
      )

  stored-discover_collection :
      (n k : String) (size : ℕ) (w : World)
      → laws.stored k (discover_collection database n size w).1 ≡ laws.stored k w
  unfolding discover_collection
  stored-discover_collection n k size w = elim (Bool-cases (size == 0)) [
    | inl none_asked ↦ rw (discover_collection, none_asked) refl
    | inr some_asked ↦
        rw (discover_collection, some_asked)
          (ap (laws.stored k) (and_then-same (database.find n w) _) ∙ laws.stored-find n k w)
  ]

  discover_and_persist_collection-IsPersisted :
      (n : String) (size : ℕ) (profile : SchemaProfile) (w w' : World)
      → discover_and_persist_collection database n size w ≡ (ok profile, w')
      → IsPersisted n profile w' × ((k : String) → k ≢ n → laws.stored k w' ≡ laws.stored k w)
  unfolding discover_and_persist_collection
  discover_and_persist_collection-IsPersisted n size profile w w' h =
      let (p, v, discovered, h1) = and_then-ok _ _ profile w' h in
      let (done, v', persisted, h2) = and_then-ok _ _ profile w' h1 in
      let same : p ≡ profile = cc in
      let last : v' ≡ w' = ap (λ r. r.1) h2 in
      let (here, others) =
        persist_profile-IsPersisted n profile v w' (rw (same, last) at persisted) in
      (
        here,
        λ k other.
            others k other
            ∙ (ap (λ r. laws.stored k r.1) (sym discovered)
                ∙ stored-discover_collection n k size w),
      )

  -- A collection that is not among the names keeps its record.
  stored-discover_each :
      (k : String) (size : ℕ) (names : List String) (m ps : List (String × SchemaProfile))
      (w w' : World)
      → Below k names
      → discover_each database size names m w ≡ (ok ps, w')
      → laws.stored k w' ≡ laws.stored k w
  unfolding discover_each
  stored-discover_each k size [] m ps w w' below h = ap (λ r. laws.stored k r.1) (sym h)
  stored-discover_each k size (n ∷ names) m ps w w' (before, below) h =
      let (p, v, discovered, h1) = and_then-ok _ _ ps w' h in
      let (here, others) = discover_and_persist_collection-IsPersisted n size p w v discovered in
      stored-discover_each k size names (insert n p m) ps v w' below h1
      ∙ others k (λ same. ground (arith, text_ord.cmp_refl n, rw (same) at before))

  -- What is persisted is loaded, unless the read fails.
  load_persisted_profile-IsPersisted :
      (n : String) (profile : SchemaProfile) (w : World)
      → IsPersisted n profile w
      → let read = database.find_one metadata_collection database.name n w in
        ((found : Option Record) × (read.0 ≡ ok found)
          × (load_persisted_profile database n w ≡ (ok (some profile), read.1)))
        ⊎ ((e : String) × (read.0 ≡ err e)
            × (load_persisted_profile database n w ≡ (err e, read.1)))
  unfolding load_persisted_profile and_then
  load_persisted_profile-IsPersisted n profile w (r, is_stored, decoded) =
      elim (Result-cases read.0) [
        | inr (e, failed) ↦ inr (e, failed, refused e (ap (λ a. (a, read.1)) failed))
        | inl (found, answered) ↦
            let some_record : found ≡ some r = laws.find_one-ok n w found answered ∙ is_stored in
            let whole : read ≡ (ok (some r), read.1) =
              ap (λ a. (a, read.1)) (answered ∙ ap ok some_record) in
            inl (found, answered, loaded read.1 whole)
      ]
    where
      read : Result String (Option Record) × World
      read = database.find_one metadata_collection database.name n w

      refused :
          (e : String)
          → database.find_one metadata_collection database.name n w ≡ (err e, read.1)
          → load_persisted_profile database n w ≡ (err e, read.1)
      refused e whole = rw (load_persisted_profile, whole) refl

      loaded :
          (v : World)
          → database.find_one metadata_collection database.name n w ≡ (ok (some r), v)
          → load_persisted_profile database n w ≡ (ok (some profile), v)
      loaded v whole = rw (load_persisted_profile, whole, decoded) refl

  -- The loop of loading gives what the loop of discovery gave.
  load_each-discover_each :
      (size : ℕ) (names : List String) (m ps : List (String × SchemaProfile)) (w w' v : World)
      → IsSorted names
      → discover_each database size names m w ≡ (ok ps, w')
      → ((k : String) → laws.stored k v ≡ laws.stored k w')
      → ((load_each database names m v).0 ≡ ok ps)
        ⊎ ((e : String) × FailsAt names v e × ((load_each database names m v).0 ≡ err e))
  unfolding load_each discover_each and_then
  load_each-discover_each size [] m ps w w' v sorted h same = inl (ap (λ r. r.0) h)
  load_each-discover_each size (n ∷ names) m ps w w' v (below, sorted) h same =
      let (p, u, discovered, h1) = and_then-ok _ _ ps w' h in
      let ((r, is_stored, decoded), others) =
        discover_and_persist_collection-IsPersisted n size p w u discovered in
      let kept : laws.stored n v ≡ some r =
        same n ∙ (stored-discover_each n size names (insert n p m) ps u w' below h1 ∙ is_stored) in
      elim (load_persisted_profile-IsPersisted n p v (r, kept, decoded)) [
        | inr (e, failed, refused) ↦ inr (e, inl failed, rw (refused) refl)
        | inl (found, answered, loaded) ↦
            let v' = (database.find_one metadata_collection database.name n v).1 in
            elim (load_each-discover_each size names (insert n p m) ps u w' v' sorted h1
              (λ k. laws.stored-find_one n k v ∙ same k)) [
                | inl all_loaded ↦ inl (rw (loaded) all_loaded)
                | inr (e, later, refused) ↦
                    inr (e, inr (found, answered, later), rw (loaded) refused)
              ]
      ]

  -- When `discover_and_persist_collections` gives profiles, `load_required_persisted_profiles` for the
  -- same names then gives exactly those profiles, or it gives the error of one of the reads of the
  -- metadata that it makes itself.
  pub load_required_persisted_profiles-discovered :
      (names : List String) (size : ℕ) (w w' : World) (profiles : List (String × SchemaProfile))
      → discover_and_persist_collections database names size w ≡ (ok profiles, w')
      → ((load_required_persisted_profiles database names w').0 ≡ ok profiles)
        ⊎ ((validated : List String) × (e : String) × (validated_collection_names names
              ≡ ok validated)
            × FailsAt validated w' e
            × ((load_required_persisted_profiles database names w').0 ≡ err e))
  unfolding load_required_persisted_profiles discover_and_persist_collections and_then
  load_required_persisted_profiles-discovered names size w w' profiles h =
      let (validated, v, valid, h1) = and_then-ok _ _ profiles w' h in
      let names_ok : validated_collection_names names ≡ ok validated = ap (λ r. r.0) valid in
      let (nonempty, exposable, sorted, same, count) =
        validated_collection_names-ok names validated names_ok in
      elim (load_each-discover_each size validated [] profiles v w' w' sorted h1 (λ k. refl)) [
        | inl all_loaded ↦ inl (rw (names_ok) all_loaded)
        | inr (e, fails, refused) ↦ inr (validated, e, names_ok, fails, rw (names_ok) refused)
      ]
