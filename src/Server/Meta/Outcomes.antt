-- ===== src/Server/Meta/Outcomes.antt =====
-- The outcomes of the commands of src/server.cpp with a metadata store, by what they find.
use red_box_db.Base.{List, arith, if◌then◌else◌, leb, none, replicate, some, update_map, ℕ, ◌≡◌}
use red_box_db.Floats.{Double, Float}
use red_box_db.Cluster.{Draws}
use red_box_db.Graph.{GraphIndex}
use red_box_db.Engine.{Engine}
use red_box_db.Storage.{Manager}
use red_box_db.Storage.Open.{Request, attached, open_manager}
use red_box_db.MetadataStore.{Conversions, Table, create_database}
use red_box_db.MetadataStore.Statements.{drop_row}
use red_box_db.Server.{Env, Name, SharedState, find_name, find_pointer}
use red_box_db.Server.Receive.{Action}
use red_box_db.Server.Serve.{add_database, forget, new_engine, one, zero_char}
use red_box_db.Server.Outcomes.{drop_listed}
use red_box_db.Server.Meta.{
  with_store, answered, choose_meta, drop_meta, ended, enter_store, perform_meta, perform_meta_at,
  unknown,
}

module _ {F G T : Type 0} ⦃table : Table T⦄ where
  pub choose_meta_listed :
      (env : Env G) (z : F) (s : SharedState F G) (t : T) (name : Name) (r : Request) (p : ℕ)
      → find_name name s.catalog ≡ some p
      → choose_meta env z s t name r ≡ answered s t (some (p, name)) one
  unfolding choose_meta
  choose_meta_listed env z s t name r p listed = ground (arith, listed)

  pub choose_meta_new :
      (env : Env G) (z : F) (s : SharedState F G) (t : T) (name : Name) (r : Request)
      → find_name name s.catalog ≡ none
      → choose_meta env z s t name r ≡ (
          if leb 2147483648 r.initial_capacity
          then unknown
          else enter_store env s name r t
              (open_manager env.calls (replicate r.dimensions z) (s.files name) r))
  unfolding choose_meta
  choose_meta_new env z s t name r new = ground (arith, new)

  pub enter_store_refused :
      (env : Env G) (s : SharedState F G) (name : Name) (r : Request) (t : T) (m : Manager F)
      → (let e = new_engine env (s.tombstones name) r m in
          create_database name r.dimensions r.index_type r.initial_capacity e.manager.header t
          ≡ none)
      → enter_store env s name r t (attached m)
        ≡ ended (add_database s name (new_engine env (s.tombstones name) r m)) t
  unfolding enter_store
  enter_store_refused env s name r t m refused = ground (arith, refused)

  pub enter_store_made :
      (env : Env G) (s : SharedState F G) (name : Name) (r : Request) (t t' : T) (m : Manager F)
      → (let e = new_engine env (s.tombstones name) r m in
          create_database name r.dimensions r.index_type r.initial_capacity e.manager.header t
          ≡ some t')
      → enter_store env s name r t (attached m)
        ≡ answered
            (add_database s name (new_engine env (s.tombstones name) r m))
            t'
            (some (s.next, name))
            one
  unfolding enter_store
  enter_store_made env s name r t t' m made = ground (arith, made)

  pub drop_meta_unlisted :
      (env : Env G) (s : SharedState F G) (t : T) (p : ℕ) (active_name : Name)
      → find_pointer p s.catalog ≡ none
      → drop_meta env s t p active_name ≡ answered s t (some (p, active_name)) zero_char
  unfolding drop_meta
  drop_meta_unlisted env s t p active_name lost = ground (arith, lost)

  pub drop_meta_refused :
      (env : Env G) (s : SharedState F G) (t : T) (p : ℕ) (active_name name : Name)
      → find_pointer p s.catalog ≡ some name
      → drop_row name t ≡ none
      → drop_meta env s t p active_name ≡ ended s t
  unfolding drop_meta
  drop_meta_refused env s t p active_name name found refused = ground (arith, found, refused)

  pub drop_meta_made :
      (env : Env G) (s : SharedState F G) (t t' : T) (p : ℕ) (active_name name : Name)
      → find_pointer p s.catalog ≡ some name
      → drop_row name t ≡ some t'
      → drop_meta env s t p active_name ≡ with_store t' active_name (forget env s p name)
  unfolding drop_meta
  drop_meta_made env s t t' p active_name name found made =
      ground (arith, found, made, drop_listed env s p name found)

module _ {F G T : Type 0} ⦃fl : Float F⦄ ⦃db : Double F⦄ ⦃draws : Draws F⦄ ⦃graph : GraphIndex F G⦄
    ⦃table : Table T⦄ ⦃conv : Conversions⦄ where
  pub perform_meta_at_freed :
      (env : Env G) (s : SharedState F G) (t : T) (p : ℕ) (name : Name) (a : Action F)
      → s.heap p ≡ none
      → perform_meta_at env s t p name a ≡ unknown
  unfolding perform_meta_at
  perform_meta_at_freed env s t p name a gone = ground (arith, gone)

  pub perform_meta_at_open :
      (env : Env G) (s : SharedState F G) (t t' : T) (p : ℕ) (name : Name) (a : Action F)
      (e : Engine F G) (answer : List ℕ)
      → s.heap p ≡ some e
      → (perform_meta env name e a t).1 ≡ some (answer, t')
      → perform_meta_at env s t p name a
        ≡ answered
            (record s { heap = update_map s.heap p (some (perform_meta env name e a t).0) })
            t'
            (some (p, name))
            answer
  unfolding perform_meta_at
  perform_meta_at_open env s t t' p name a e answer at made = ground (arith, at, made)

  pub perform_meta_at_refused :
      (env : Env G) (s : SharedState F G) (t : T) (p : ℕ) (name : Name) (a : Action F)
      (e : Engine F G)
      → s.heap p ≡ some e
      → (perform_meta env name e a t).1 ≡ none
      → perform_meta_at env s t p name a
        ≡ ended (record s { heap = update_map s.heap p (some (perform_meta env name e a t).0) }) t
  unfolding perform_meta_at
  perform_meta_at_refused env s t p name a e at refused = ground (arith, at, refused)
