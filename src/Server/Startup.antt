-- ===== src/Server/Startup.antt =====
-- `main` of src/server.cpp: the databases that the metadata store lists are opened before any client
-- connects. The data directory is the working directory.
use red_box_db.Base.{List, Option, [], if◌then◌else◌, leb, none, replicate, some, suc, ℕ, ◌%◌, ◌∷◌}
use red_box_db.Metadata.{SpecificMetadata, is_hnsw}
use red_box_db.Storage.Open.{Opened, Request, Stored, attached, failed, moved, open_manager}
use red_box_db.MetadataStore.{Conversions, Table, load_database}
use red_box_db.MetadataStore.Statements.{DbInfo, list_databases, seed_from_files}
use red_box_db.Server.{Env, Name, SharedState}
use red_box_db.Server.Serve.{
  Outcome, add_database, closed, hnsw_request, ivf_request, new_engine, replied, undefined,
}

-- What `main` has when it begins to accept clients: the shared state, with its store if it has one.
pub data Started (F G T : Type 0) : Type 0 where
  up : SharedState F G → Option T → Started F G T
  lost : Started F G T

-- The arguments of the constructor, with `(int)params.max_capacity`, for one that is not negative.
unfoldable pub stored_request : SpecificMetadata → Request
unfolding is_hnsw
stored_request params =
    let capacity = params.max_capacity % 4294967296 in
    if is_hnsw params.index_type
    then hnsw_request params.dimensions capacity params.hnsw_m params.hnsw_ef_construction
    else record (ivf_request params.dimensions capacity) {
      num_clusters = params.num_clusters;
      num_probes = params.num_probes;
    }

module _ {F G : Type 0} where
  -- The catalog after a constructor that opened its file, or did not.
  abbrev pub take_in : Env G → SharedState F G → Name → Request → Opened F → Outcome F G
  take_in env s name r (attached m) =
      replied (add_database s name (new_engine env (s.tombstones name) r m)) none []
  take_in env s name r (moved offsets) = undefined
  take_in env s name r (failed x) = closed s

  -- One round of the loop over the list; `closed` where the constructor throws.
  unfoldable pub load_one : Env G → F → SharedState F G → Name → Request → Outcome F G
  unfolding open_manager new_engine add_database
  load_one env zero_float s name r =
      if leb 2147483648 r.initial_capacity
      then undefined
      else take_in env s name r
          (open_manager env.calls (replicate r.dimensions zero_float) (s.files name) r)

module _ {F G T : Type 0} where
  -- The next round, or the end: an exception leaves what was opened before it, and no store.
  abbrev pub next_round : Outcome F G → (SharedState F G → Started F G T) → Started F G T
  next_round (replied s c answer) next = next s
  next_round (closed s) next = up s none
  next_round undefined next = lost

module _ {F G T : Type 0} ⦃table : Table T⦄ ⦃conv : Conversions⦄ where
  -- The loop over the list.
  unfoldable pub load_all : (ℕ → Env G) → F → List DbInfo → SharedState F G → T → Started F G T
  unfolding load_database load_one stored_request
  load_all envs zero_float [] s t = up s (some t)
  load_all envs zero_float (info ∷ infos) s t = elim (load_database info.name t) [
    | none ↦ up s none
    | some params ↦
        next_round (load_one (envs 0) zero_float s info.name (stored_request params))
          (λ s'. load_all (λ i. envs (suc i)) zero_float infos s' t)
  ]

  -- `none` for a store that cannot be reached, or whose schema cannot be made.
  unfoldable pub start_up :
      (ℕ → Env G)
      → F
      → Option T
      → Option (List (Name × Option SpecificMetadata))
      → SharedState F G
      → Started F G T
  unfolding seed_from_files list_databases load_all
  start_up envs zero_float none dir s = up s none
  start_up envs zero_float (some t) dir s = elim (seed_from_files dir t) [
    | none ↦ up s none
    | some t' ↦ elim (list_databases t') [
      | none ↦ up s none
      | some infos ↦ load_all envs zero_float infos s t'
    ]
  ]

-- The state that `main` declares, over the files that are there.
abbrev pub booted :
    {F G : Type 0} → (Name → Option (Stored F)) → (Name → Option (List ℕ)) → SharedState F G
booted files tombstones = record {
  heap = λ _. none;
  next = 0;
  catalog = [];
  files = files;
  tombstones = tombstones;
}
