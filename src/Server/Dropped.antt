-- ===== src/Server/Dropped.antt =====
-- `DROP_DB` of src/server.cpp: what it answers and leaves, the same name afterwards, and the other
-- connections on the database.
use red_box_db.Base.Names.{same_name, same_name_iff, same_name_refl}
use red_box_db.Base.{
  true, not, ◌&&◌, List, Option, Option-cases, ap, arith, false, for_range, if_elim, if◌then◌else◌,
  inl, inr, none, refl, replicate, some, subst, ℕ, ◌++◌, ◌∙◌, ◌≡◌, ◌≢◌,
}
use red_box_db.Metadata.{is_hnsw}
use red_box_db.Storage.{Manager}
use red_box_db.Storage.Open.{
  Calls, Opened, Stored, Request, attached, failed, fresh_manager, moved, open_manager,
}
use red_box_db.Engine.{Engine, contents}
use red_box_db.Engine.Tombstones.{load_tombstones}
use red_box_db.Engine.Open.{bare, load_slots, open_hnsw, open_ivf, with_slots}
use red_box_db.Server.{Bits, Connection, Env, Name, SharedState, find_name, find_pointer}
use red_box_db.Server.Serve.{
  Outcome, closed, forget, forgotten, left_files, left_tombstones, active_of, add_database, choose,
  drop_database, new_engine, one, replied, serve, undefined,
}
use red_box_db.Server.Catalog.{find_name-erase_name, find_pointer-find_name, find_pointer-none}
use red_box_db.Server.Keeps.{IsShared}
use red_box_db.Server.Outcomes.{choose_new, drop_listed, enter}
use red_box_db.Graph.{GraphIndex}
use red_box_db.Floats.{Double, Float}
use red_box_db.Cluster.{Draws}
use red_box_db.Server.Wire.Chunks.{read_bytes}
use red_box_db.Server.Receive.{freed, read_command, read_request, use_freed}
use red_box_db.Server.Client.{packet_header}
use red_box_db.Server.Framing.{Word, read_header}

module _ {F : Type 0} where
  no_file_count :
      (calls : Calls) (row : List F) (r : Request) (m : Manager F)
      → open_manager calls row none r ≡ attached m
      → m.vector_count ≡ 0
  unfolding open_manager fresh_manager
  no_file_count calls row r m e = ground (arith, e)

module _ {F G : Type 0} where
  -- The database at p is closed, its name is gone, and all other names lead where they led and have
  -- the files that they had.
  pub record IsForgotten (s : SharedState F G) (p : ℕ) (name : Name) (s' : SharedState F G)
      : Type 0 where
    pub released : s'.heap p ≡ none
    pub gone : find_name name s'.catalog ≡ none
    pub others :
        (n : Name)
        → n ≢ name
        → (find_name n s'.catalog ≡ find_name n s.catalog)
          × (s'.files n ≡ s.files n)
          × (s'.tombstones n ≡ s.tombstones n)

  -- Its files are gone too if it was answered; otherwise one of them could not be removed, and the
  -- tombstone file is there, and the file as well if it could not be removed.
  abbrev pub IsDropped : Env G → SharedState F G → ℕ → Name → Outcome F G → Type 0
  IsDropped env s p name (replied s' c answer) =
      (c ≡ none)
      × (answer ≡ one)
      × (env.db_removes ≡ true)
      × (env.del_removes ≡ true)
      × (s'.files name ≡ none)
      × (s'.tombstones name ≡ none)
      × IsForgotten s p name s'
  IsDropped env s p name (closed s') =
      (env.db_removes && env.del_removes ≡ false)
      × (s'.files name ≡ (if env.db_removes then none else left_files s p name))
      × (s'.tombstones name ≡ left_tombstones s p name)
      × IsForgotten s p name s'
  IsDropped env s p name undefined = ⊥

  forgotten-IsForgotten :
      (s : SharedState F G) (p : ℕ) (name : Name) (file : Option (Stored F))
      (tombstone_file : Option (List ℕ))
      → IsForgotten s p name (forgotten s p name file tombstone_file)
  forgotten-IsForgotten s p name file tombstone_file = record {
    released = ground arith;
    gone = ground (arith, find_name-erase_name name name s.catalog, same_name_refl name);
    others = λ n other.
        let e : same_name name n ≡ false = ground (arith, same_name_iff name n) in
        (
          ground (arith, find_name-erase_name name n s.catalog, e),
          ground (arith, e),
          ground (arith, e),
        );
  }

  forget-IsDropped :
      (env : Env G) (s : SharedState F G) (p : ℕ) (name : Name)
      → IsDropped env s p name (forget env s p name)
  unfolding forget
  forget-IsDropped env s p name =
      if_elim (IsDropped env s p name) (not env.db_removes) _ _
        (λ stuck. (
          ground (arith, stuck),
          ground (arith, stuck, same_name_refl name),
          ground (arith, same_name_refl name),
          forgotten-IsForgotten s p name _ _,
        ))
        (λ freed.
          if_elim (IsDropped env s p name) (not env.del_removes) _ _
            (λ stuck. (
              ground (arith, stuck),
              ground (arith, freed, same_name_refl name),
              ground (arith, same_name_refl name),
              forgotten-IsForgotten s p name _ _,
            ))
            (λ freed_too. (
              refl,
              refl,
              ground (arith, freed),
              ground (arith, freed_too),
              ground (arith, same_name_refl name),
              ground (arith, same_name_refl name),
              forgotten-IsForgotten s p name _ _,
            )))

  -- The only entry that the loop over the catalog can find is that of the name.
  find_pointer-listed :
      (s : SharedState F G) (name : Name) (p : ℕ)
      → IsShared s
      → find_name name s.catalog ≡ some p
      → find_pointer p s.catalog ≡ some name
  find_pointer-listed s name p h e = elim (Option-cases (find_pointer p s.catalog)) [
    | inl lost ↦ absurd (find_pointer-none p name s.catalog lost e)
    | inr (n, found) ↦
        let e' = find_pointer-find_name p n s.catalog h.distinct found in
        found ∙ ap some (h.unique n name p e' e)
  ]

  -- In a state that meets the invariant, if a connection drops its database, which is listed under a
  -- name, the database is closed, its name is gone, and all other names lead where they led and have
  -- the files that they had. If both its files could be removed, it is answered so, has no database
  -- then, and the files are gone; otherwise it ends, the tombstone file stays, and the file stays
  -- too, as the database left it, if it could not be removed.
  pub drop_database-IsDropped :
      (env : Env G) (s : SharedState F G) (name : Name) (p : ℕ)
      → IsShared s
      → find_name name s.catalog ≡ some p
      → IsDropped env s p name (drop_database env s p)
  drop_database-IsDropped env s name p h e =
      rw (drop_listed env s p name (find_pointer-listed s name p h e))
        (forget-IsDropped env s p name)

  drop_listed-IsDropped :
      (env : Env G) (s s' : SharedState F G) (name : Name) (p : ℕ) (c : Connection)
      (answer : List ℕ)
      → IsShared s
      → find_name name s.catalog ≡ some p
      → drop_database env s p ≡ replied s' c answer
      → IsDropped env s p name (replied s' c answer)
  drop_listed-IsDropped env s s' name p c answer h e d =
      subst (IsDropped env s p name) d (drop_database-IsDropped env s name p h e)

  slots_blank :
      (e : Engine F G) (k id : ℕ) → e.manager.vector_count ≡ 0 → contents (with_slots e k) id ≡ none
  unfolding contents load_slots for_range
  slots_blank e k id empty = rw empty refl

  -- A new engine on a file without vectors reads as nothing for every id.
  new_engine_blank :
      (env : Env G) (r : Request) (m : Manager F) (id : ℕ)
      → m.vector_count ≡ 0
      → contents (new_engine env none r m) id ≡ none
  unfolding new_engine open_ivf open_hnsw load_tombstones
  new_engine_blank env r m id empty =
      let b = load_tombstones (bare {F = F} m none r.dimensions env.use_avx2 env.graph) in
      if_elim (λ e. contents e id ≡ none) (is_hnsw r.index_type)
        (open_hnsw m none r.dimensions env.use_avx2 env.graph)
        (open_ivf m none r.dimensions r.num_clusters env.use_avx2 env.graph)
        (λ graph. slots_blank b 0 id empty)
        (λ clusters. slots_blank b (if m.is_initialized then r.num_clusters else 0) id empty)

  enter_blank :
      (env : Env G) (s s' : SharedState F G) (name : Name) (r : Request) (q : ℕ) (answer : List ℕ)
      (o : Opened F)
      → s.tombstones name ≡ none
      → ((m : Manager F) → o ≡ attached m → m.vector_count ≡ 0)
      → enter env s name r o ≡ replied s' (some q) answer
      → (e : Engine F G) × (s'.heap q ≡ some e) × ((id : ℕ) → contents e id ≡ none)
  unfolding add_database
  enter_blank env s s' name r q answer (attached m) t empty e =
      let entered = add_database s name (new_engine env (s.tombstones name) r m) in
      let same : entered ≡ s' = ground (arith, e) in
      let place : s.next ≡ q = ground (arith, e) in
      (
        new_engine env none r m,
        rw (← same, ← place, t) (ground arith),
        λ id. new_engine_blank env r m id (empty m refl),
      )
  enter_blank env s s' name r q answer (moved offsets) t empty e = cc
  enter_blank env s s' name r q answer (failed x) t empty e = cc

  -- In a state that meets the invariant, a name that is selected after its database was dropped, and
  -- the drop answered, gets a database, if it is answered with one, that reads as nothing for every
  -- id: neither the old file nor the old tombstones come back.
  pub dropped_is_blank :
      (env : Env G) (z : F) (s s' s'' : SharedState F G) (name : Name) (p q : ℕ) (r : Request)
      (c : Connection) (dropped answer : List ℕ)
      → IsShared s
      → find_name name s.catalog ≡ some p
      → drop_database env s p ≡ replied s' c dropped
      → choose env z s' name r ≡ replied s'' (some q) answer
      → (e : Engine F G) × (s''.heap q ≡ some e) × ((id : ℕ) → contents e id ≡ none)
  dropped_is_blank env z s s' s'' name p q r c dropped answer h e d chosen =
      let (ended, answered, db, del, no_file, no_tombstones, g) =
        drop_listed-IsDropped env s s' name p c dropped h e d in
      let opened = open_manager env.calls (replicate r.dimensions z) (s'.files name) r in
      let entered : enter env s' name r opened ≡ replied s'' (some q) answer =
        ground (arith, choose_new env z s' name r g.gone, chosen) in
      enter_blank env s' s'' name r q answer opened no_tombstones
        (λ m eq. no_file_count env.calls (replicate r.dimensions z) r m (
          subst (λ f. open_manager env.calls (replicate r.dimensions z) f r ≡ attached m) no_file
            eq))
        entered

module _ {F G : Type 0} ⦃fl : Float F⦄ ⦃db : Double F⦄ ⦃draws : Draws F⦄ ⦃graph : GraphIndex F G⦄
    ⦃bits : Bits F⦄ where
  -- In a state that meets the invariant, after one connection has dropped a database, and was
  -- answered, the next header of any command but the two that select a database makes every other
  -- connection on it read memory that has been freed.
  pub dropped_dangles :
      (env : Env G) (z : F) (s s' : SharedState F G) (name : Name) (p cmd meta : ℕ)
      (rest answer : List ℕ)
      → IsShared s
      → find_name name s.catalog ≡ some p
      → drop_database env s p ≡ replied s' none answer
      → Word meta
      → cmd ≢ 4
      → cmd ≢ 10
      → (read_bytes (read_request {F = F} (active_of s' (some p))) (packet_header cmd meta ++ rest)
          ≡ some (use_freed, rest))
        × (serve env z s' (some p) use_freed ≡ undefined)
  unfolding active_of serve
  dropped_dangles env z s s' name p cmd meta rest answer h e d w other other' =
      let (ended, answered, db, del, no_file, no_tombstones, g) =
        drop_listed-IsDropped env s s' name p none answer h e d in
      let active : active_of s' (some p) ≡ freed = ground (arith, g.released) in
      (
        rw active
            (read_header freed cmd meta rest w ∙ unfold read_command read_bytes in ground arith),
        refl,
      )
