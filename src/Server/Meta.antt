-- ===== src/Server/Meta.antt =====
-- `handle_client` of src/server.cpp with a metadata store: what its statements add to Serve.
pub mod Counted
pub mod Outcomes
pub mod Matching
pub mod Mirrors
pub mod Follows
pub mod Same
use red_box_db.Base.{
  Bool, true, false, List, Option, [], if◌then◌else◌, leb, length, none, replicate, some, take,
  update_map, ℕ, ◌%◌, ◌++◌, ◌∷◌,
}
use red_box_db.Floats.{Double, Float}
use red_box_db.Cluster.{Draws}
use red_box_db.Graph.{GraphIndex}
use red_box_db.Metadata.{IndexType, hnsw, ivf}
use red_box_db.Engine.{Engine, get_count, get_dim, get_next_id, update}
use red_box_db.Storage.Open.{Opened, Request, attached, failed, moved, open_manager}
use red_box_db.Engine.Insert.{insert, insert_auto}
use red_box_db.Engine.Tombstones.{remove}
use red_box_db.Engine.Search.{search}
use red_box_db.MetadataStore.{Conversions, Table, create_database, ◌>>=◌}
use red_box_db.MetadataStore.Statements.{
  DbInfo, drop_row, list_databases, log_operation, update_counts,
}
use red_box_db.Server.{Env, Name, SharedState, find_name, find_pointer}
use red_box_db.Server.Wire.{le}
use red_box_db.Server.Receive.{
  Action, Command, act, create_hnsw_db, db_info, delete_id, drop_db, hang_up, insert_auto_vec,
  insert_vec, list_dbs, reject_name, search_n_vec, search_vec, select_db, set_hnsw_ef, set_probes,
  unknown_cmd, update_vec, use_freed,
}
use red_box_db.Server.Serve.{
  Outcome, add_database, closed, drop_database, hnsw_request, int_bytes, ivf_request, new_engine,
  one, perform, replied, undefined, yes_or_no, zero_char,
}

-- `active_db` and `active_db_name`.
abbrev pub NamedConnection : Type 0
NamedConnection = Option (ℕ × Name)

-- After a command, as `Outcome`, with the store.
pub data MetaOutcome (F G T : Type 0) : Type 0 where
  answered : SharedState F G → T → NamedConnection → List ℕ → MetaOutcome F G T
  ended : SharedState F G → T → MetaOutcome F G T
  unknown : MetaOutcome F G T

-- The operations in the log.
abbrev pub insert_op : List ℕ
insert_op = b'I' ∷ b'N' ∷ b'S' ∷ b'E' ∷ b'R' ∷ b'T' ∷ []

abbrev pub search_op : List ℕ
search_op = b'S' ∷ b'E' ∷ b'A' ∷ b'R' ∷ b'C' ∷ b'H' ∷ []

abbrev pub delete_op : List ℕ
delete_op = b'D' ∷ b'E' ∷ b'L' ∷ b'E' ∷ b'T' ∷ b'E' ∷ []

abbrev pub update_op : List ℕ
update_op = b'U' ∷ b'P' ∷ b'D' ∷ b'A' ∷ b'T' ∷ b'E' ∷ []

abbrev pub insert_auto_op : List ℕ
insert_auto_op = insert_op ++ b'_' ∷ b'A' ∷ b'U' ∷ b'T' ∷ b'O' ∷ []

abbrev pub index_byte : IndexType → ℕ
index_byte ivf = 0
index_byte hnsw = 1

-- The answer to `LIST_DBS`: the entries, after their number. The length of a name is one byte.
unfoldable pub entries_bytes : List DbInfo → List ℕ
unfolding le
entries_bytes [] = []
entries_bytes (db ∷ dbs) =
    (length db.name % 256 ∷ take (length db.name % 256) db.name)
    ++ le 4 db.dimensions
    ++ index_byte db.index_type ∷ le 8 db.vector_count
    ++ entries_bytes dbs

module _ {F G : Type 0} where
  -- The answer to `DB_INFO`.
  unfoldable pub info_bytes : Engine F G → List ℕ
  unfolding le get_count get_next_id get_dim
  info_bytes e =
      1 ∷ le 8 (get_count e)
      ++ le 8 e.manager.max_capacity
      ++ le 8 (get_next_id e)
      ++ index_byte e.manager.index_type ∷ le 4 (get_dim e)

module _ {F G T : Type 0} where
  -- A command whose statements were made.
  abbrev pub with_store : T → Name → Outcome F G → MetaOutcome F G T
  with_store t name (replied s none answer) = answered s t none answer
  with_store t name (replied s (some p) answer) = answered s t (some (p, name)) answer
  with_store t name (closed s) = ended s t
  with_store t name undefined = unknown

module _ {F G T : Type 0} ⦃table : Table T⦄ where
  -- The row of the database at the counts of its engine.
  unfoldable pub count_row : Name → Engine F G → T → Option T
  unfolding update_counts get_count get_next_id
  count_row name e t = update_counts name (get_count e) (get_next_id e) t

  -- The two statements after a command that inserts or deletes, and its answer.
  unfoldable pub count_and_log : Name → Engine F G → List ℕ → ℕ → List ℕ → T → Option (List ℕ × T)
  unfolding count_row log_operation
  count_and_log name e op id answer t = do
    t' ← count_row name e t
    some (answer, log_operation name op id t')

  -- After a removal that gave an answer: the two statements, if it removed the id.
  abbrev pub after_removal : Name → Engine F G → ℕ → Option Bool → T → Option (List ℕ × T)
  after_removal name e id none t = none
  after_removal name e id (some true) t = count_and_log name e delete_op id one t
  after_removal name e id (some false) t = some (zero_char, t)

  unfoldable pub enter_store :
      Env G → SharedState F G → Name → Request → T → Opened F → MetaOutcome F G T
  unfolding create_database new_engine add_database
  enter_store env s name r t (attached m) =
      let e = new_engine env (s.tombstones name) r m in
      elim (create_database name r.dimensions r.index_type r.initial_capacity e.manager.header t) [
        | none ↦ ended (add_database s name e) t
        | some t' ↦ answered (add_database s name e) t' (some (s.next, name)) one
      ]
  enter_store env s name r t (moved offsets) = unknown
  enter_store env s name r t (failed x) = ended s t

  -- A new database gets its row after it is in the catalog.
  unfoldable pub choose_meta : Env G → F → SharedState F G → T → Name → Request → MetaOutcome F G T
  unfolding find_name open_manager enter_store
  choose_meta env zero_float s t name r = elim (find_name name s.catalog) [
    | some p ↦ answered s t (some (p, name)) one
    | none ↦
        if leb 2147483648 r.initial_capacity
        then unknown
        else enter_store env s name r t
            (open_manager env.calls (replicate r.dimensions zero_float) (s.files name) r)
  ]

  -- The row goes before the database.
  unfoldable pub drop_meta : Env G → SharedState F G → T → ℕ → Name → MetaOutcome F G T
  unfolding find_pointer drop_row drop_database
  drop_meta env s t p active_name = elim (find_pointer p s.catalog) [
    | none ↦ answered s t (some (p, active_name)) zero_char
    | some name ↦ elim (drop_row name t) [
      | none ↦ ended s t
      | some t' ↦ with_store t' active_name (drop_database env s p)
    ]
  ]

module _ {F G T : Type 0} ⦃fl : Float F⦄ ⦃db : Double F⦄ ⦃draws : Draws F⦄ ⦃graph : GraphIndex F G⦄
    ⦃table : Table T⦄ ⦃conv : Conversions⦄ where
  -- The database after a command, with the answer and the store, or `none` where a statement or the
  -- removal throws.
  unfoldable pub perform_meta :
      Env G → Name → Engine F G → Action F → T → Engine F G × Option (List ℕ × T)
  unfolding perform insert insert_auto remove update search int_bytes le count_and_log log_operation
      list_databases entries_bytes info_bytes
  perform_meta env name e (insert_vec id vec) t =
      let e' = insert e id vec in (e', count_and_log name e' insert_op id one t)
  perform_meta env name e (search_vec query) t =
      (e, some (int_bytes (search e query), log_operation name search_op 0 t))
  perform_meta env name e (delete_id id) t =
      let (e', success) = remove e id env.disk in (e', after_removal name e' id success t)
  perform_meta env name e (update_vec id vec) t =
      let (e', success) = update e id vec in
      (e', some (yes_or_no success, if success then log_operation name update_op id t else t))
  perform_meta env name e (insert_auto_vec vec) t =
      let (id, e') = insert_auto e vec in (e', count_and_log name e' insert_auto_op id (le 8 id) t)
  perform_meta env name e (search_n_vec n query) t =
      (e, some ((perform env e (search_n_vec n query)).1, t))
  perform_meta env name e (set_probes n) t =
      let (e', answer) = perform env e (set_probes n) in (e', some (answer, t))
  perform_meta env name e (set_hnsw_ef n) t =
      let (e', answer) = perform env e (set_hnsw_ef n) in (e', some (answer, t))
  perform_meta env name e list_dbs t =
      (e, do dbs ← list_databases t; some (le 4 (length dbs) ++ entries_bytes dbs, t))
  perform_meta env name e db_info t = (e, some (info_bytes e, t))
  perform_meta env name e unknown_cmd t = (e, some (zero_char, t))

  unfoldable pub perform_meta_at :
      Env G → SharedState F G → T → ℕ → Name → Action F → MetaOutcome F G T
  unfolding perform_meta
  perform_meta_at env s t p name a = elim (s.heap p) [
    | none ↦ unknown
    | some e ↦
        let (e', result) = perform_meta env name e a t in
        let s' = record s { heap = update_map s.heap p (some e') } in
        elim result [
          | none ↦ ended s' t
          | some (answer, t') ↦ answered s' t' (some (p, name)) answer
        ]
  ]

  unfoldable pub serve_meta :
      Env G → F → SharedState F G → T → NamedConnection → Command F → MetaOutcome F G T
  unfolding choose_meta drop_meta perform_meta_at
  serve_meta env zero_float s t c reject_name = answered s t c (0 ∷ [])
  serve_meta env zero_float s t c hang_up = ended s t
  serve_meta env zero_float s t c use_freed = unknown
  serve_meta env zero_float s t c (select_db name dim cap) =
      choose_meta env zero_float s t name (ivf_request dim cap)
  serve_meta env zero_float s t c (create_hnsw_db name dim cap m ef) =
      choose_meta env zero_float s t name (hnsw_request dim cap m ef)
  serve_meta env zero_float s t none drop_db = ended s t
  serve_meta env zero_float s t (some (p, name)) drop_db = drop_meta env s t p name
  serve_meta env zero_float s t none (act a) = ended s t
  serve_meta env zero_float s t (some (p, name)) (act a) = perform_meta_at env s t p name a
