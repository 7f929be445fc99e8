-- ===== src/Server/Runs.antt =====
-- What the start-up of src/server.cpp leaves: a state that meets the invariant, in which every
-- database of a store that stays is open.
use red_box_db.Base.{
  All, All-mono, All-zip, List, Option, Option-cases, Pairwise, [], arith, inl, inr, none, refl,
  some, subst, suc, sym, true, ℕ, ◌∷◌, ◌≡◌, ◌≢◌,
}
use red_box_db.Metadata.{SpecificMetadata}
use red_box_db.Storage.Open.{Stored}
use red_box_db.Engine.Erase.{is_some}
use red_box_db.Server.{Env, Name, SharedState, find_name, is_valid_db_name}
use red_box_db.Server.Serve.{Outcome, closed, replied, undefined}
use red_box_db.Server.Framing.{Word}
use red_box_db.Server.Keeps.{IsShared}
use red_box_db.Server.Startup.{
  Started, booted, load_all, load_one, lost, next_round, start_up, stored_request, up,
}
use red_box_db.MetadataStore.{Conversions, Table, load_database}
use red_box_db.MetadataStore.Statements.{DbInfo, list_databases, seed_from_files}
use red_box_db.MetadataStore.Listed.{infos_of-names, names_of}
use red_box_db.Server.Engines.{AreFiles}
use red_box_db.Server.Opened.{Adds, IsGrown, booted-IsShared, load_one-Adds, stored_request_dim}

module _ {F G T : Type 0} where
  -- The invariant holds, and where there is a store, what was open is, and a database is open under
  -- each of these names.
  abbrev Begun : SharedState F G → List Name → Started F G T → Type 0
  Begun s ns lost = Unit {0}
  Begun s ns (up s' none) = IsShared s'
  Begun s ns (up s' (some t)) = IsGrown s s' × All (λ n. is_some (find_name n s'.catalog) ≡ true) ns

  IsGrown-Begun :
      (s s' : SharedState F G) (name : Name) (ns : List Name) (y : Started F G T)
      → IsGrown s s'
      → is_some (find_name name s'.catalog) ≡ true
      → Begun s' ns y
      → Begun s (name ∷ ns) y
  IsGrown-Begun s s' name ns lost g listed h = tt
  IsGrown-Begun s s' name ns (up u none) g listed h = h
  IsGrown-Begun s s' name ns (up u (some t)) g listed (k, all) = (
    record { shared = k.shared; names = λ n p at. k.names n p (g.names n p at) },
    (
      elim (Option-cases (find_name name s'.catalog)) [
        | inl gone ↦ absurd (ground (arith, listed, gone))
        | inr (p, at) ↦ ground (arith, k.names name p at)
      ],
      all,
    ),
  )

module _ {F G T : Type 0} ⦃table : Table T⦄ ⦃conv : Conversions⦄ where
  next_round-Begun :
      (s : SharedState F G) (name : Name) (ns : List Name) (o : Outcome F G)
      (next : SharedState F G → Started F G T)
      → IsShared s
      → Adds s name o
      → All (λ n. find_name n s.catalog ≡ none) ns
      → All (λ n. name ≢ n) ns
      → ((s' : SharedState F G)
          → IsShared s'
          → All (λ n. find_name n s'.catalog ≡ none) ns
          → Begun s' ns (next s'))
      → Begun s (name ∷ ns) (next_round o next)
  next_round-Begun s name ns (replied s' c answer) next h (g, listed, others) free apart rest =
      IsGrown-Begun s s' name ns (next s') g listed (
        rest s' g.shared (
          All-zip ns (λ n new other. ground (arith, others n (λ e. other (sym e)), new)) free
            apart))
  next_round-Begun s name ns (closed s') next h same free apart rest = rw same h
  next_round-Begun s name ns undefined next h a free apart rest = tt

  pub load_all_gone :
      (envs : ℕ → Env G) (z : F) (db : DbInfo) (dbs : List DbInfo) (s : SharedState F G) (t : T)
      → load_database db.name t ≡ none
      → load_all envs z (db ∷ dbs) s t ≡ up s none
  unfolding load_all
  load_all_gone envs z db dbs s t gone = ground (arith, gone)

  pub load_all_got :
      (envs : ℕ → Env G) (z : F) (db : DbInfo) (dbs : List DbInfo) (s : SharedState F G) (t : T)
      (params : SpecificMetadata)
      → load_database db.name t ≡ some params
      → load_all envs z (db ∷ dbs) s t
        ≡ next_round
            (load_one (envs 0) z s db.name (stored_request params))
            (λ s'. load_all (λ i. envs (suc i)) z dbs s' t)
  unfolding load_all
  load_all_got envs z db dbs s t params got = ground (arith, got)

  pub start_up_unlisted :
      (envs : ℕ → Env G) (z : F) (store : T) (dir : Option (List (Name × Option SpecificMetadata)))
      (s : SharedState F G) (t : T)
      → seed_from_files dir store ≡ some t
      → list_databases t ≡ none
      → start_up envs z (some store) dir s ≡ up s none
  unfolding start_up
  start_up_unlisted envs z store dir s t seeded gone = ground (arith, seeded, gone)

  pub start_up_listed :
      (envs : ℕ → Env G) (z : F) (store : T) (dir : Option (List (Name × Option SpecificMetadata)))
      (s : SharedState F G) (t : T) (dbs : List DbInfo)
      → seed_from_files dir store ≡ some t
      → list_databases t ≡ some dbs
      → start_up envs z (some store) dir s ≡ load_all envs z dbs s t
  unfolding start_up
  start_up_listed envs z store dir s t dbs seeded got = ground (arith, seeded, got)

  load_all-Begun :
      (envs : ℕ → Env G) (z : F) (dbs : List DbInfo) (s : SharedState F G) (t : T)
      → IsShared s
      → All (λ n. is_valid_db_name n ≡ true) (names_of dbs)
      → All (λ n. find_name n s.catalog ≡ none) (names_of dbs)
      → Pairwise (λ m n. m ≢ n) (names_of dbs)
      → ((n : Name) (params : SpecificMetadata)
          → load_database n t ≡ some params
          → Word params.dimensions)
      → Begun s (names_of dbs) (load_all envs z dbs s t)
  unfolding load_all
  load_all-Begun envs z [] s t h valid free apart small =
      (record { shared = h; names = λ n p at. at }, tt)
  load_all-Begun envs z (db ∷ dbs) s t h valid free apart small =
      elim (Option-cases (load_database db.name t)) [
        | inl gone ↦ rw (load_all_gone envs z db dbs s t gone) h
        | inr (params, got) ↦
            let w : Word (stored_request params).dimensions =
              rw (stored_request_dim params) (small db.name params got) in
            rw (load_all_got envs z db dbs s t params got) (
              next_round-Begun s db.name (names_of dbs) _ _ h
                (load_one-Adds (envs 0) z s db.name (stored_request params) h valid.0 free.0 w)
                free.1 apart.0
                (λ s' h' free'.
                  load_all-Begun (λ i. envs (suc i)) z dbs s' t h' valid.1 free' apart.1 small))
      ]

  start_up-Begun :
      (envs : ℕ → Env G) (z : F) (store : T) (dir : Option (List (Name × Option SpecificMetadata)))
      (s : SharedState F G) (t : T)
      → IsShared s
      → ((n : Name) → find_name n s.catalog ≡ none)
      → seed_from_files dir store ≡ some t
      → All (λ n. is_valid_db_name n ≡ true) (table.names t)
      → ((n : Name) (params : SpecificMetadata)
          → load_database n t ≡ some params
          → Word params.dimensions)
      → Begun s (table.names t) (start_up envs z (some store) dir s)
  start_up-Begun envs z store dir s t h free seeded valid small =
      elim (Option-cases (list_databases t)) [
        | inl gone ↦ rw (start_up_unlisted envs z store dir s t seeded gone) h
        | inr (dbs, got) ↦
            let same : names_of dbs ≡ table.names t =
              unfold list_databases in infos_of-names (table.names t) t dbs got in
            let named = subst (All (λ n. is_valid_db_name n ≡ true)) (sym same) valid in
            rw (start_up_listed envs z store dir s t dbs seeded got) (
              subst (λ ns. Begun s ns (load_all envs z dbs s t)) same
                (load_all-Begun envs z dbs s t h named
                  (All-mono (names_of dbs) (λ n v. free n) named)
                  (subst (Pairwise (λ m n. m ≢ n)) (sym same) (table.names_unique t)) small))
      ]

  -- After the start-up, on files that have their size: each database is open under one valid name.
  abbrev pub Runs : List Name → Started F G T → Type 0
  Runs ns lost = Unit {0}
  Runs ns (up s none) = IsShared s
  Runs ns (up s (some t)) = IsShared s × All (λ n. is_some (find_name n s.catalog) ≡ true) ns

  Begun-Runs : (s : SharedState F G) (ns : List Name) (y : Started F G T) → Begun s ns y → Runs ns y
  Begun-Runs s ns lost h = tt
  Begun-Runs s ns (up u none) h = h
  Begun-Runs s ns (up u (some t)) (g, all) = (g.shared, all)

  -- With a store whose names, after the files are added, are valid, and whose dimensions are below
  -- 2^32, on files that are of their dimensions, the state after the start-up meets the invariant
  -- of the server; and if the server keeps its store, every name of the store leads to an open
  -- database.
  pub start_up-Runs :
      (envs : ℕ → Env G) (z : F) (store : T) (dir : Option (List (Name × Option SpecificMetadata)))
      (files : Name → Option (Stored F)) (tombstones : Name → Option (List ℕ)) (t : T)
      → AreFiles files
      → seed_from_files dir store ≡ some t
      → All (λ n. is_valid_db_name n ≡ true) (table.names t)
      → ((n : Name) (params : SpecificMetadata)
          → load_database n t ≡ some params
          → Word params.dimensions)
      → Runs (table.names t) (start_up envs z (some store) dir (booted files tombstones))
  unfolding find_name
  start_up-Runs envs z store dir files tombstones t disk seeded valid small =
      Begun-Runs (booted files tombstones) (table.names t) _ (
        start_up-Begun envs z store dir (booted files tombstones) t
          (booted-IsShared files tombstones disk) (λ n. refl) seeded valid small)
