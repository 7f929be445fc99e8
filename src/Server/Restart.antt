-- ===== src/Server/Restart.antt =====
-- What the start-up of src/server.cpp reads of the files that an earlier server left.
use red_box_db.Base.{
  List, Option, ap, arith, if_elim, leb, refl, replicate, some, subst, sym, ℕ, ◌∙◌, ◌≡◌, ◌≢◌,
}
use red_box_db.Base.Names.{same_name_iff, same_name_refl}
use red_box_db.Metadata.{is_hnsw}
use red_box_db.Storage.{Manager}
use red_box_db.Storage.Open.{
  Calls, Opened, Request, Stored, attach, attached, failed, moved, open_manager,
}
use red_box_db.Engine.{Engine, contents}
use red_box_db.Engine.Open.{reopen}
use red_box_db.Engine.Store.{IsStore}
use red_box_db.Engine.Durable.{IsDurable, contents-reopen}
use red_box_db.Server.{Connection, Env, Name, SharedState, find_name}
use red_box_db.Server.Serve.{Outcome, add_database, closed, new_engine, replied, undefined}
use red_box_db.Server.Keeps.{IsShared, below-next}
use red_box_db.Server.Startup.{load_one, take_in}

module _ {F : Type 0} where
  open_manager-contents :
      (calls : Calls) (row : List F) (st : Stored F) (r : Request) (m : Manager F)
      → st.size ≢ 0
      → open_manager calls row (some st) r ≡ attached m
      → (st.contents ≡ m) × (m.dimensions ≡ r.dimensions)
  unfolding open_manager attach
  open_manager-contents calls row st r m full e =
      let same : st.contents ≡ m = ground (arith, e, full) in (same, ground (arith, e, full, same))

module _ {F G : Type 0} where
  -- A database that reads as `e` is open under the name.
  abbrev pub Reads : Engine F G → Name → SharedState F G → Type 0
  Reads e n s =
      (p : ℕ) × (e' : Engine F G) × (find_name n s.catalog ≡ some p)
      × (s.heap p ≡ some e')
      × ((id : ℕ) → contents e' id ≡ contents e id)

  -- What the process that had `e` left on disk under the name.
  pub record IsLeft (e : Engine F G) (st : Stored F) : Type 0 where
    pub store : IsStore e
    pub durable : IsDurable e
    pub nonempty : st.size ≢ 0
    pub mapped : st.contents ≡ e.manager

  -- What a round that went well did.
  abbrev pub Took : Env G → F → SharedState F G → Name → Request → Outcome F G → Type 0
  Took env z s name r (replied s' c answer) =
      (m : Manager F) × (open_manager env.calls (replicate r.dimensions z) (s.files name) r
        ≡ attached m)
      × (s' ≡ add_database s name (new_engine env (s.tombstones name) r m))
  Took env z s name r (closed s') = Unit {0}
  Took env z s name r undefined = Unit {0}

  take_in-Took :
      (env : Env G) (z : F) (s : SharedState F G) (name : Name) (r : Request) (o : Opened F)
      → open_manager env.calls (replicate r.dimensions z) (s.files name) r ≡ o
      → Took env z s name r (take_in env s name r o)
  take_in-Took env z s name r (attached m) e = (m, e, refl)
  take_in-Took env z s name r (moved offsets) e = tt
  take_in-Took env z s name r (failed x) e = tt

  pub load_one-Took :
      (env : Env G) (z : F) (s : SharedState F G) (name : Name) (r : Request)
      → Took env z s name r (load_one env z s name r)
  unfolding load_one
  load_one-Took env z s name r =
      if_elim (Took env z s name r) (leb 2147483648 r.initial_capacity) _ _ (λ big. tt)
        (λ small. take_in-Took env z s name r _ refl)

  new_engine-reopen :
      (env : Env G) (tombstones : Option (List ℕ)) (r : Request) (m : Manager F)
      → is_hnsw r.index_type ≡ is_hnsw m.index_type
      → new_engine env tombstones r m
        ≡ reopen m tombstones r.dimensions r.num_clusters env.use_avx2 env.graph
  unfolding new_engine reopen
  new_engine-reopen env tombstones r m type = rw type refl

  new_engine-contents :
      (env : Env G) (e : Engine F G) (st : Stored F) (r : Request)
      → IsLeft e st
      → is_hnsw r.index_type ≡ is_hnsw e.manager.index_type
      → e.manager.dimensions ≡ r.dimensions
      → (id : ℕ) → contents (new_engine env e.tombstone_file r e.manager) id ≡ contents e id
  new_engine-contents env e st r l type dims id =
      let opened =
        λ (d : ℕ). reopen e.manager e.tombstone_file d r.num_clusters env.use_avx2 env.graph in
      let sized : e.dimension ≡ r.dimensions = sym l.store.sized ∙ dims in
      rw (new_engine-reopen env e.tombstone_file r e.manager type) (
        subst (λ d. contents (opened d) id ≡ contents e id) sized
          (contents-reopen e r.num_clusters env.use_avx2 env.graph id l.store l.durable))

  pub add_database-Reads :
      (s : SharedState F G) (name n : Name) (e d : Engine F G)
      → IsShared s
      → n ≢ name
      → Reads e n s
      → Reads e n (add_database s name d)
  unfolding add_database find_name
  add_database-Reads s name n e d h other (p, e', at, alive, reads) = (
    p,
    e',
    ground (arith, at, other, same_name_iff name n),
    ground (arith, alive, below-next s n p h at),
    reads,
  )

  add_database-opens :
      (s : SharedState F G) (name : Name) (e d : Engine F G)
      → ((id : ℕ) → contents d id ≡ contents e id)
      → Reads e name (add_database s name d)
  unfolding add_database find_name
  add_database-opens s name e d reads =
      (s.next, d, ground (arith, same_name_refl name), ground arith, reads)

  -- A round for the name gives the database back.
  pub Took-Reads :
      (env : Env G) (z : F) (s s' : SharedState F G) (n : Name) (r : Request) (e : Engine F G)
      (st : Stored F) (c : Connection) (answer : List ℕ)
      → Took env z s n r (replied s' c answer)
      → IsLeft e st
      → s.files n ≡ some st
      → s.tombstones n ≡ e.tombstone_file
      → is_hnsw r.index_type ≡ is_hnsw e.manager.index_type
      → Reads e n s'
  Took-Reads env z s s' n r e st c answer (m, opened, same) l at tombs type =
      let row = replicate r.dimensions z in
      let file : open_manager env.calls row (some st) r ≡ attached m =
        subst (λ f. open_manager env.calls row f r ≡ attached m) at opened in
      let (whole, dims) = open_manager-contents env.calls row st r m l.nonempty file in
      let kept : e.manager ≡ m = sym l.mapped ∙ whole in
      let reads : (id : ℕ) → contents (new_engine env (s.tombstones n) r m) id ≡ contents e id =
        λ id.
          subst (λ f. contents (new_engine env f r m) id ≡ contents e id) (sym tombs)
            (subst (λ x. contents (new_engine env e.tombstone_file r x) id ≡ contents e id) kept
              (new_engine-contents env e st r l type
                (ap (λ (x : Manager F). x.dimensions) kept ∙ dims) id)) in
      rw same (add_database-opens s n e (new_engine env (s.tombstones n) r m) reads)
