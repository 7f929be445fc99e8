-- ===== src/Server/Serve.antt =====
-- What `handle_client` of src/server.cpp does with a command, and the bytes of its answer.
use red_box_db.Base.Names.{same_name}
use red_box_db.Base.{
  Bool, not, List, Option, [], false, true, if◌then◌else◌, leb, length, ltb, none, replicate, some,
  suc, update_map, zero, ℕ, ◌%◌, ◌++◌, ◌+◌, ◌-◌, ◌∷◌,
}
use red_box_db.Base.Int.{negsuc, pos, to_int, ℤ}
use red_box_db.Floats.{Double, Float}
use red_box_db.Cluster.{Draws}
use red_box_db.Graph.{GraphIndex}
use red_box_db.Metadata.{hnsw, is_hnsw, ivf}
use red_box_db.Storage.Open.{Stored, Request, attached, failed, moved, open_manager}
use red_box_db.Engine.{Engine, get_dim, set_hnsw_ef_search, set_num_probes, update}
use red_box_db.Engine.Insert.{insert, insert_auto}
use red_box_db.Engine.Tombstones.{remove}
use red_box_db.Engine.Search.{search, search_n}
use red_box_db.Engine.Open.{open_hnsw, open_ivf}
use red_box_db.Server.{Connection, Env, Name, SharedState, erase_name, find_name, find_pointer}
use red_box_db.Server.Wire.{le}
use red_box_db.Server.Receive.{
  Action, Active, Command, absent, act, create_hnsw_db, db_info, delete_id, drop_db, freed, hang_up,
  insert_auto_vec, insert_vec, list_dbs, open_dim, reject_name, search_n_vec, search_vec, select_db,
  set_hnsw_ef, set_probes, unknown_cmd, update_vec, use_freed,
}
use red_box_db.Storage.{Manager}
use red_box_db.Storage.Size.{setup_pointers, unmapped_size}

abbrev pub default_clusters : ℕ
default_clusters = 1000

abbrev pub default_probes : ℕ
default_probes = 10

-- The bytes '1' and '0'.
abbrev pub one : List ℕ
one = b'1' ∷ []

abbrev pub zero_char : List ℕ
zero_char = b'0' ∷ []

abbrev pub yes_or_no : Bool → List ℕ
yes_or_no success = if success then one else zero_char

-- The answer to `DELETE`; none if the removal throws.
abbrev pub removal_answer : Option Bool → List ℕ
removal_answer none = []
removal_answer (some success) = yes_or_no success

abbrev pub has_thrown : Option Bool → Bool
has_thrown none = true
has_thrown (some success) = false

-- The four bytes of an `int`.
unfoldable pub int_bytes : ℤ → List ℕ
unfolding le
int_bytes (pos n) = le 4 n
int_bytes (negsuc n) = le 4 (4294967295 - n)

unfoldable pub ints_bytes : List ℤ → List ℕ
unfolding int_bytes
ints_bytes [] = []
ints_bytes (n ∷ ns) = int_bytes n ++ ints_bytes ns

-- What the constructors hand to that of the storage manager.
abbrev pub ivf_request : ℕ → ℕ → Request
ivf_request dim capacity = record {
  dimensions = dim;
  initial_capacity = capacity;
  num_clusters = default_clusters;
  num_probes = default_probes;
  index_type = ivf;
  hnsw_m = 16;
  hnsw_ef_construction = 200;
}

abbrev pub hnsw_request : ℕ → ℕ → ℕ → ℕ → Request
hnsw_request dim capacity m ef = record {
  dimensions = dim;
  initial_capacity = capacity;
  num_clusters = 100;
  num_probes = 1;
  index_type = hnsw;
  hnsw_m = m;
  hnsw_ef_construction = ef;
}

-- After a command: the answer, with the shared state and the connection; the connection ends; or
-- what happens is undefined.
pub data Outcome (F G : Type 0) : Type 0 where
  replied : SharedState F G → Connection → List ℕ → Outcome F G
  closed : SharedState F G → Outcome F G
  undefined : Outcome F G

module _ {F G : Type 0} where
  unfoldable pub add_database : SharedState F G → Name → Engine F G → SharedState F G
  add_database s name e = record s {
    heap = update_map s.heap s.next (some e);
    next = s.next + 1;
    catalog = (name, s.next) ∷ s.catalog;
  }

  -- The engine of a command that names a database.
  unfoldable pub new_engine : Env G → Option (List ℕ) → Request → Manager F → Engine F G
  unfolding open_ivf open_hnsw is_hnsw
  new_engine env tombstones r m =
      if is_hnsw r.index_type
      then open_hnsw m tombstones r.dimensions env.use_avx2 env.graph
      else open_ivf m tombstones r.dimensions r.num_clusters env.use_avx2 env.graph

  -- The catalog's entry, or a new one. An exception of the constructor ends the connection. A
  -- capacity that is a negative `int`, and a file of another layout, leave the rest undefined.
  unfoldable pub choose : Env G → F → SharedState F G → Name → Request → Outcome F G
  unfolding find_name open_manager new_engine add_database
  choose env zero_float s name r = elim (find_name name s.catalog) [
    | some p ↦ replied s (some p) one
    | none ↦
        if leb 2147483648 r.initial_capacity
        then undefined
        else elim (open_manager env.calls (replicate r.dimensions zero_float) (s.files name) r) [
          | attached m ↦
              replied (add_database s name (new_engine env (s.tombstones name) r m)) (some s.next)
                one
          | moved offsets ↦ undefined
          | failed x ↦ closed s
        ]
  ]

  -- The file that an engine leaves when it is destroyed.
  unfoldable pub left_file : Engine F G → Stored F
  unfolding unmapped_size setup_pointers
  left_file e = record {
    size = unmapped_size e.manager.header;
    pointers =
        setup_pointers e.manager.dimensions e.manager.max_capacity e.manager.num_clusters
          e.manager.index_type;
    contents = e.manager;
  }

  -- What is under the name when the engine at p is gone, if it is not removed.
  unfoldable pub left_files : SharedState F G → ℕ → Name → Option (Stored F)
  unfolding left_file
  left_files s p name = elim (s.heap p) [ none ↦ s.files name | some e ↦ some (left_file e) ]

  unfoldable pub left_tombstones : SharedState F G → ℕ → Name → Option (List ℕ)
  left_tombstones s p name = elim (s.heap p) [
    | none ↦ s.tombstones name
    | some e ↦ e.tombstone_file
  ]

  -- The entries of the catalog and the engine are gone, and this is under the name.
  abbrev pub forgotten :
      SharedState F G → ℕ → Name → Option (Stored F) → Option (List ℕ) → SharedState F G
  forgotten s p name file tombstone_file = record s {
    heap = update_map s.heap p none;
    catalog = erase_name name s.catalog;
    files = λ n. if same_name name n then file else s.files n;
    tombstones = λ n. if same_name name n then tombstone_file else s.tombstones n;
  }

  -- A file that cannot be removed makes `std::filesystem::remove` throw, which ends the connection.
  unfoldable pub forget : Env G → SharedState F G → ℕ → Name → Outcome F G
  unfolding erase_name same_name left_files left_tombstones
  forget env s p name =
      if not env.db_removes
      then closed (forgotten s p name (left_files s p name) (left_tombstones s p name))
      else if not env.del_removes
      then closed (forgotten s p name none (left_tombstones s p name))
      else replied (forgotten s p name none none) none one

  -- The entries of the catalog, the engine, and its files go. A pointer that the catalog does not
  -- have is not dropped.
  unfoldable pub drop_database : Env G → SharedState F G → ℕ → Outcome F G
  unfolding find_pointer forget
  drop_database env s p = elim (find_pointer p s.catalog) [
    | none ↦ replied s (some p) zero_char
    | some name ↦ forget env s p name
  ]

  -- What `handle_client` knows before it reads the rest of a command.
  unfoldable pub active_of : SharedState F G → Connection → Active
  unfolding get_dim
  active_of s none = absent
  active_of s (some p) = elim (s.heap p) [ none ↦ freed | some e ↦ open_dim (get_dim e) ]

module _ {F G : Type 0} ⦃fl : Float F⦄ ⦃db : Double F⦄ ⦃draws : Draws F⦄
    ⦃graph : GraphIndex F G⦄ where
  -- The answer to `SEARCH_N`, for `int n`.
  unfoldable pub answer_n : Engine F G → List F → ℤ → List ℕ
  unfolding search_n ints_bytes le
  answer_n e query (negsuc n) = le 4 0
  answer_n e query (pos zero) = le 4 0
  answer_n e query (pos (suc n)) =
      let results = search_n e query (suc n) in le 4 (length results) ++ ints_bytes results

  -- A command on the active database. The list of databases is empty, and there is no information,
  -- without a metadata store.
  unfoldable pub perform : Env G → Engine F G → Action F → Engine F G × List ℕ
  unfolding insert insert_auto remove update search answer_n int_bytes le set_num_probes
      set_hnsw_ef_search to_int
  perform env e (insert_vec id vec) = (insert e id vec, one)
  perform env e (search_vec query) = (e, int_bytes (search e query))
  perform env e (delete_id id) =
      let (e', success) = remove e id env.disk in (e', removal_answer success)
  perform env e (update_vec id vec) = let (e', success) = update e id vec in (e', yes_or_no success)
  perform env e (insert_auto_vec vec) = let (id, e') = insert_auto e vec in (e', le 8 id)
  perform env e (search_n_vec n query) = (e, answer_n e query (to_int n))
  perform env e (set_probes n) = (if ltb 0 (n % 256) then set_num_probes e (n % 256) else e, one)
  perform env e (set_hnsw_ef n) = (set_hnsw_ef_search e (n % 65536), one)
  perform env e list_dbs = (e, le 4 0)
  perform env e db_info = (e, 0 ∷ [])
  perform env e unknown_cmd = (e, zero_char)

  -- Whether the command throws.
  abbrev pub act_throws : Env G → Engine F G → Action F → Bool
  act_throws env e (delete_id id) = has_thrown (remove e id env.disk).1
  act_throws env e a = false

  unfoldable pub perform_at : Env G → SharedState F G → ℕ → Action F → Outcome F G
  unfolding perform
  perform_at env s p a = elim (s.heap p) [
    | none ↦ undefined
    | some e ↦
        let (e', answer) = perform env e a in
        let s' = record s { heap = update_map s.heap p (some e') } in
        if act_throws env e a then closed s' else replied s' (some p) answer
  ]

  unfoldable pub serve : Env G → F → SharedState F G → Connection → Command F → Outcome F G
  unfolding choose drop_database perform_at
  serve env zero_float s c reject_name = replied s c (0 ∷ [])
  serve env zero_float s c hang_up = closed s
  serve env zero_float s c use_freed = undefined
  serve env zero_float s c (select_db name dim cap) =
      choose env zero_float s name (ivf_request dim cap)
  serve env zero_float s c (create_hnsw_db name dim cap m ef) =
      choose env zero_float s name (hnsw_request dim cap m ef)
  serve env zero_float s none drop_db = closed s
  serve env zero_float s (some p) drop_db = drop_database env s p
  serve env zero_float s none (act a) = closed s
  serve env zero_float s (some p) (act a) = perform_at env s p a
