-- ===== src/Server/Engines.antt =====
-- A command of src/server.cpp keeps the invariant of the database that it acts on.
use red_box_db.Base.{
  Bool-cases, List, Option, arith, if_elim, inl, inr, length, length-replicate, ltb, none, refl,
  replicate, some, subst, ℕ, ◌%◌, ◌==◌, ◌≡◌,
}
use red_box_db.Floats.{Double, Float}
use red_box_db.Cluster.{Draws}
use red_box_db.Graph.{GraphIndex}
use red_box_db.Metadata.{is_hnsw}
use red_box_db.Storage.Open.{Calls, Request, Stored, attach, attached, fresh_manager, open_manager}
use red_box_db.Engine.{Engine, set_hnsw_ef_search, set_num_probes}
use red_box_db.Engine.Store.{IsStore, SameStore-IsStore}
use red_box_db.Engine.Valid.{SameStore}
use red_box_db.Engine.Durable.{
  IsFile, open_hnsw-IsStore, open_hnsw-dimension, open_ivf-IsStore, open_ivf-dimension,
}
use red_box_db.Engine.Grows.{insert-Grows, remove-Grows, ticked, ticked-IsStore, update-Grows}
use red_box_db.Engine.Insert.{insert, insert_auto}
use red_box_db.Engine.Refine.{insert-Inserted}
use red_box_db.Engine.Erase.{remove-Removed, update-Updated}
use red_box_db.Server.{Env, Name}
use red_box_db.Server.Receive.{
  Action, db_info, delete_id, insert_auto_vec, insert_vec, list_dbs, search_n_vec, search_vec,
  set_hnsw_ef, set_probes, unknown_cmd, update_vec,
}
use red_box_db.Server.Received.{IsAction}
use red_box_db.Server.Framing.{Word}
use red_box_db.Server.Serve.{new_engine, perform}
use red_box_db.Storage.{Manager}

module _ {F G : Type 0} where
  pub record IsOpen (e : Engine F G) : Type 0 where
    pub store : IsStore e
    pub small : Word e.dimension

  settings-IsOpen : (e e' : Engine F G) → SameStore e e' → IsOpen e → IsOpen e'
  settings-IsOpen e e' s h = record {
    store = SameStore-IsStore s h.store;
    small = rw s.dim h.small;
  }

  pub new_engine-IsOpen :
      (env : Env G) (tombstones : Option (List ℕ)) (r : Request) (m : Manager F)
      → IsFile m r.dimensions
      → Word r.dimensions
      → IsOpen (new_engine env tombstones r m)
  unfolding new_engine
  new_engine-IsOpen env tombstones r m file w =
      if_elim IsOpen (is_hnsw r.index_type) _ _
        (λ graph. record {
          store = open_hnsw-IsStore m tombstones r.dimensions env.use_avx2 env.graph file;
          small = rw (open_hnsw-dimension m tombstones r.dimensions env.use_avx2 env.graph) w;
        })
        (λ clusters. record {
          store =
              open_ivf-IsStore m tombstones r.dimensions r.num_clusters env.use_avx2 env.graph file;
          small =
              rw
                (open_ivf-dimension m tombstones r.dimensions r.num_clusters env.use_avx2 env.graph)
                w;
        })

module _ {F : Type 0} where
  abbrev pub AreFiles : (Name → Option (Stored F)) → Type 0
  AreFiles files =
      (name : Name) (st : Stored F)
      → files name ≡ some st
      → IsFile st.contents st.contents.dimensions

  fresh_manager-IsFile :
      (z : F) (r : Request) → IsFile (fresh_manager (replicate r.dimensions z) r) r.dimensions
  unfolding fresh_manager
  fresh_manager-IsFile z r = record {
    within = omega arith;
    sized = refl;
    rows = λ i lt. length-replicate r.dimensions z;
  }

  attach-IsFile :
      (st : Stored F) (r : Request) (m : Manager F)
      → IsFile st.contents st.contents.dimensions
      → attach st r ≡ attached m
      → IsFile m r.dimensions
  unfolding attach
  attach-IsFile st r m h e =
      let dims : st.contents.dimensions ≡ r.dimensions = ground (arith, e) in
      let same : st.contents ≡ m = ground (arith, e) in
      subst (λ m. IsFile m r.dimensions) same (rw (← dims) h)

  pub open_manager-IsFile :
      (calls : Calls) (z : F) (file : Option (Stored F)) (r : Request) (m : Manager F)
      → ((st : Stored F) → file ≡ some st → IsFile st.contents st.contents.dimensions)
      → open_manager calls (replicate r.dimensions z) file r ≡ attached m
      → IsFile m r.dimensions
  unfolding open_manager
  open_manager-IsFile calls z none r m h e =
      let same : fresh_manager (replicate r.dimensions z) r ≡ m = ground (arith, e) in
      subst (λ m. IsFile m r.dimensions) same (fresh_manager-IsFile z r)
  open_manager-IsFile calls z (some st) r m h e = elim (Bool-cases (st.size == 0)) [
    | inl blank ↦
        let same : fresh_manager (replicate r.dimensions z) r ≡ m = ground (arith, e) in
        subst (λ m. IsFile m r.dimensions) same (fresh_manager-IsFile z r)
    | inr full ↦
        let opened : attach st r ≡ attached m = ground (arith, e) in
        attach-IsFile st r m (h st refl) opened
  ]

module _ {F G : Type 0} ⦃fl : Float F⦄ ⦃db : Double F⦄ ⦃draws : Draws F⦄
    ⦃graph : GraphIndex F G⦄ where
  insert-IsOpen :
      (e : Engine F G) (id : ℕ) (vec : List F)
      → IsOpen e
      → length vec ≡ e.dimension
      → IsOpen (insert e id vec)
  insert-IsOpen e id vec h l = record {
    store = (insert-Inserted e id vec h.store l).valid;
    small = rw (insert-Grows e id vec).dim h.small;
  }

  -- A command whose vector has the dimension keeps the invariant of the database.
  pub perform-IsOpen :
      (env : Env G) (e : Engine F G) (a : Action F)
      → IsOpen e
      → IsAction e.dimension a
      → IsOpen (perform env e a).0
  unfolding perform
  perform-IsOpen env e (insert_vec id vec) h l = insert-IsOpen e id vec h l
  perform-IsOpen env e (search_vec query) h l = h
  perform-IsOpen env e (delete_id id) h l = record {
    store = (remove-Removed e id env.disk h.store).valid;
    small = rw (remove-Grows e id env.disk).dim h.small;
  }
  perform-IsOpen env e (update_vec id vec) h l = record {
    store = (update-Updated e id vec h.store l).valid;
    small = rw (update-Grows e id vec).dim h.small;
  }
  perform-IsOpen env e (insert_auto_vec vec) h l =
      unfold insert_auto ticked in
      insert-IsOpen (ticked e) e.manager.next_id vec
        (record { store = ticked-IsStore e h.store; small = h.small }) l
  perform-IsOpen env e (search_n_vec n query) h l = h
  perform-IsOpen env e (set_probes n) h l =
      if_elim IsOpen (ltb 0 (n % 256)) _ _
        (λ some_probes.
          settings-IsOpen e (set_num_probes e (n % 256)) (unfold set_num_probes in ground arith) h)
        (λ none_given. h)
  perform-IsOpen env e (set_hnsw_ef n) h l =
      settings-IsOpen e (set_hnsw_ef_search e (n % 65536))
        (unfold set_hnsw_ef_search in ground arith) h
  perform-IsOpen env e list_dbs h l = h
  perform-IsOpen env e db_info h l = h
  perform-IsOpen env e unknown_cmd h l = h

  pub perform_dim :
      (env : Env G) (e : Engine F G) (a : Action F) → (perform env e a).0.dimension ≡ e.dimension
  unfolding perform
  perform_dim env e (insert_vec id vec) = (insert-Grows e id vec).dim
  perform_dim env e (search_vec query) = refl
  perform_dim env e (delete_id id) = (remove-Grows e id env.disk).dim
  perform_dim env e (update_vec id vec) = (update-Grows e id vec).dim
  perform_dim env e (insert_auto_vec vec) =
      unfold insert_auto ticked in (insert-Grows (ticked e) e.manager.next_id vec).dim
  perform_dim env e (search_n_vec n query) = refl
  perform_dim env e (set_probes n) = unfold set_num_probes in ground arith
  perform_dim env e (set_hnsw_ef n) = unfold set_hnsw_ef_search in refl
  perform_dim env e list_dbs = refl
  perform_dim env e db_info = refl
  perform_dim env e unknown_cmd = refl
