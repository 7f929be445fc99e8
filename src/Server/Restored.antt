-- ===== src/Server/Restored.antt =====
-- A database that an earlier server left is given back by the start-up of src/server.cpp.
use red_box_db.Metadata.{SpecificMetadata, is_hnsw}
use red_box_db.MetadataStore.{Conversions, Table, load_database}
use red_box_db.Server.Serve.{Outcome, add_database, closed, replied, undefined}
use red_box_db.Server.Keeps.{IsShared}
use red_box_db.Server.Startup.{
  Started, booted, load_all, lost, next_round, start_up, stored_request, up,
}
use red_box_db.Base.{
  All, All-mono, All-zip, Bool-cases, List, Option, Option-cases, Pairwise, [], arith, false, inl,
  inr, none, refl, some, subst, suc, sym, true, ℕ, ◌∙◌, ◌∷◌, ◌≡◌, ◌≢◌, ◌⊎◌,
}
use red_box_db.Base.Names.{same_name, same_name-eq}
use red_box_db.Storage.Open.{Request, Stored}
use red_box_db.Engine.{Engine}
use red_box_db.Server.{Connection, Env, Name, SharedState, find_name, is_valid_db_name}
use red_box_db.MetadataStore.Statements.{DbInfo, is_known, list_databases, seed_from_files}
use red_box_db.MetadataStore.Listed.{infos_of-names, names_of}
use red_box_db.Server.Framing.{Word}
use red_box_db.Server.Opened.{Adds, booted-IsShared, load_one-Adds, stored_request_dim}
use red_box_db.Server.Runs.{load_all_gone, load_all_got, start_up_listed, start_up_unlisted}
use red_box_db.Server.Restart.{IsLeft, Reads, Took, Took-Reads, add_database-Reads, load_one-Took}
use red_box_db.Server.Engines.{AreFiles}

stored_request_type :
    (params : SpecificMetadata)
    → is_hnsw (stored_request params).index_type ≡ is_hnsw params.index_type
unfolding stored_request is_hnsw
stored_request_type params = ground arith

module _ {F G : Type 0} (e : Engine F G) (st : Stored F) (n : Name) where
  -- The database is open already, or its turn is still to come.
  abbrev Due : SharedState F G → List Name → Type 0
  Due s ns =
      (Reads e n s × All (λ m. n ≢ m) ns)
      ⊎ ((s.files n ≡ some st) × (s.tombstones n ≡ e.tombstone_file) × (is_known n ns ≡ true))

  add_database-Due :
      (s : SharedState F G) (name : Name) (d : Engine F G) (ns : List Name)
      → same_name name n ≡ false
      → (s.files n ≡ some st)
      → (s.tombstones n ≡ e.tombstone_file)
      → is_known n (name ∷ ns) ≡ true
      → Due (add_database s name d) ns
  unfolding add_database is_known
  add_database-Due s name d ns other at tombs known = inr (at, tombs, ground (arith, other, known))

  Took-Due :
      (env : Env G) (z : F) (s s' : SharedState F G) (name : Name) (r : Request) (ns : List Name)
      (c : Connection) (answer : List ℕ)
      → IsLeft e st
      → IsShared s
      → Took env z s name r (replied s' c answer)
      → (name ≡ n → is_hnsw r.index_type ≡ is_hnsw e.manager.index_type)
      → All (λ m. name ≢ m) ns
      → Due s (name ∷ ns)
      → Due s' ns
  Took-Due env z s s' name r ns c answer l h (m, opened, same) type apart (inl (reads, others)) =
      rw same (inl (add_database-Reads s name n e _ h others.0 reads, others.1))
  Took-Due env z s s' name r ns c answer l h took type apart (inr (at, tombs, known)) =
      elim (Bool-cases (same_name name n)) [
        | inl this ↦
            let named = same_name-eq name n this in
            inl (
              Took-Reads env z s s' n r e st c answer
                  (subst (λ x. Took env z s x r (replied s' c answer)) named took) l at tombs
                  (type named),
              subst (λ x. All (λ m. x ≢ m) ns) named apart,
            )
        | inr other ↦ rw took.2 (add_database-Due s name _ ns other at tombs known)
      ]

module _ {F G T : Type 0} (e : Engine F G) (n : Name) where
  -- If there is a store, the database reads as it did.
  abbrev pub Restores : Started F G T → Type 0
  Restores lost = Unit {0}
  Restores (up s none) = Unit {0}
  Restores (up s (some t)) = Reads e n s

module _ {F G T : Type 0} ⦃table : Table T⦄ ⦃conv : Conversions⦄ (e : Engine F G) (st : Stored F)
    (n : Name) where
  next_round-Restores :
      (env : Env G) (z : F) (s : SharedState F G) (name : Name) (r : Request) (ns : List Name)
      (o : Outcome F G) (next : SharedState F G → Started F G T)
      → IsLeft e st
      → IsShared s
      → Took env z s name r o
      → Adds s name o
      → (name ≡ n → is_hnsw r.index_type ≡ is_hnsw e.manager.index_type)
      → All (λ m. name ≢ m) ns
      → All (λ m. find_name m s.catalog ≡ none) ns
      → Due e st n s (name ∷ ns)
      → ((s' : SharedState F G)
          → IsShared s'
          → All (λ m. find_name m s'.catalog ≡ none) ns
          → Due e st n s' ns
          → Restores e n (next s'))
      → Restores e n (next_round o next)
  next_round-Restores env z s name r ns (replied s' c answer) next l h took (g, listed, others) type
        apart free due rest =
      rest s' g.shared
        (All-zip ns (λ m new other. ground (arith, others m (λ q. other (sym q)), new)) free apart)
        (Took-Due e st n env z s s' name r ns c answer l h took type apart due)
  next_round-Restores env z s name r ns (closed s') next l h took adds type apart free due rest = tt
  next_round-Restores env z s name r ns undefined next l h took adds type apart free due rest = tt

  load_all-Restores :
      (envs : ℕ → Env G) (z : F) (dbs : List DbInfo) (s : SharedState F G) (t : T)
      → IsLeft e st
      → IsShared s
      → All (λ m. is_valid_db_name m ≡ true) (names_of dbs)
      → All (λ m. find_name m s.catalog ≡ none) (names_of dbs)
      → Pairwise (λ m k. m ≢ k) (names_of dbs)
      → ((m : Name) (params : SpecificMetadata)
          → load_database m t ≡ some params
          → Word params.dimensions)
      → ((params : SpecificMetadata)
          → load_database n t ≡ some params
          → is_hnsw params.index_type ≡ is_hnsw e.manager.index_type)
      → Due e st n s (names_of dbs)
      → Restores e n (load_all envs z dbs s t)
  unfolding load_all is_known
  load_all-Restores envs z [] s t l h valid free apart small typed (inl (reads, none_left)) = reads
  load_all-Restores envs z [] s t l h valid free apart small typed (inr (at, tombs, known)) =
      absurd (ground (arith, known))
  load_all-Restores envs z (db ∷ dbs) s t l h valid free apart small typed due =
      elim (Option-cases (load_database db.name t)) [
        | inl gone ↦ rw (load_all_gone envs z db dbs s t gone) tt
        | inr (params, got) ↦
            let r = stored_request params in
            let w : Word r.dimensions = rw (stored_request_dim params) (small db.name params got) in
            rw (load_all_got envs z db dbs s t params got) (
              next_round-Restores (envs 0) z s db.name r (names_of dbs) _ _ l h
                (load_one-Took (envs 0) z s db.name r)
                (load_one-Adds (envs 0) z s db.name r h valid.0 free.0 w)
                (λ named.
                  stored_request_type params
                  ∙ typed params (subst (λ x. load_database x t ≡ some params) named got))
                apart.0 free.1 due
                (λ s' h' free' due'.
                  load_all-Restores (λ i. envs (suc i)) z dbs s' t l h' valid.1 free' apart.1 small
                    typed due'))
      ]

  -- A database that keeps its invariant and whose files were in step with it is left in a file that
  -- is not empty, and its name is in the store with its type of index; the names of the store are
  -- valid, its dimensions below 2^32 and the files of their dimensions. If the next server keeps
  -- the store, then after its start-up the name leads to an open database that reads as this one
  -- did, for every id.
  pub start_up-Restores :
      (envs : ℕ → Env G) (z : F) (store : T) (dir : Option (List (Name × Option SpecificMetadata)))
      (files : Name → Option (Stored F)) (tombstones : Name → Option (List ℕ)) (t : T)
      → AreFiles files
      → seed_from_files dir store ≡ some t
      → All (λ m. is_valid_db_name m ≡ true) (table.names t)
      → ((m : Name) (params : SpecificMetadata)
          → load_database m t ≡ some params
          → Word params.dimensions)
      → ((params : SpecificMetadata)
          → load_database n t ≡ some params
          → is_hnsw params.index_type ≡ is_hnsw e.manager.index_type)
      → IsLeft e st
      → files n ≡ some st
      → tombstones n ≡ e.tombstone_file
      → is_known n (table.names t) ≡ true
      → Restores e n (start_up envs z (some store) dir (booted files tombstones))
  start_up-Restores envs z store dir files tombstones t disk seeded valid small typed l at tombs
        known =
      let s : SharedState F G = booted files tombstones in
      elim (Option-cases (list_databases t)) [
        | inl gone ↦ rw (start_up_unlisted envs z store dir s t seeded gone) tt
        | inr (dbs, got) ↦
            let same : names_of dbs ≡ table.names t =
              unfold list_databases in infos_of-names (table.names t) t dbs got in
            let named = subst (All (λ m. is_valid_db_name m ≡ true)) (sym same) valid in
            rw (start_up_listed envs z store dir s t dbs seeded got) (
              load_all-Restores envs z dbs s t l (booted-IsShared files tombstones disk) named
                (All-mono (names_of dbs) (λ m v. unfold find_name in refl) named)
                (subst (Pairwise (λ m k. m ≢ k)) (sym same) (table.names_unique t)) small typed
                (inr (at, tombs, subst (λ ns. is_known n ns ≡ true) (sym same) known)))
      ]
