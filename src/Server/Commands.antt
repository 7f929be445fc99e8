-- ===== src/Server/Commands.antt =====
-- Every command of src/server.cpp keeps the invariant of the shared state.
use red_box_db.Base.{
  Option-cases, arith, if_elim, inl, inr, leb, none, refl, some, subst, true, ℕ, ◌≡◌,
}
use red_box_db.Floats.{Double, Float}
use red_box_db.Cluster.{Draws}
use red_box_db.Graph.{GraphIndex}
use red_box_db.Storage.{Manager}
use red_box_db.Storage.Open.{Opened, Request, attached, failed, moved}
use red_box_db.Server.{
  Connection, Env, Name, SharedState, find_name, find_pointer, is_valid_db_name,
}
use red_box_db.Server.Receive.{
  Action, Command, act, create_hnsw_db, drop_db, hang_up, reject_name, select_db, use_freed,
}
use red_box_db.Engine.{Engine, get_dim}
use red_box_db.Server.Received.{IsAction, IsCommand}
use red_box_db.Server.Framing.{Word}
use red_box_db.Server.Serve.{
  act_throws, active_of, choose, drop_database, hnsw_request, ivf_request, new_engine, perform,
  perform_at, serve,
}
use red_box_db.Server.Catalog.{find_pointer-find_name}
use red_box_db.Server.Engines.{new_engine-IsOpen, open_manager-IsFile, perform-IsOpen}
use red_box_db.Server.Keeps.{
  Ensures, IsShared, add_database-IsShared, changed-IsShared, forget_elim, forgotten-IsShared,
  left_files-IsFile,
}
use red_box_db.Engine.Durable.{IsFile}
use red_box_db.Server.Outcomes.{
  choose_listed, choose_new, drop_listed, drop_unlisted, enter, perform_at_freed, perform_at_open,
}

module _ {F G : Type 0} where
  -- What a command that was read relies on: a valid name and numbers in range, or vectors of the
  -- dimension of the database, if that is still open.
  abbrev pub IsFit : SharedState F G → Connection → Command F → Type 0
  IsFit s c reject_name = Unit {0}
  IsFit s c hang_up = Unit {0}
  IsFit s c use_freed = Unit {0}
  IsFit s c (select_db name dim cap) = (is_valid_db_name name ≡ true) × Word dim
  IsFit s c (create_hnsw_db name dim cap m ef) = (is_valid_db_name name ≡ true) × Word dim
  IsFit s c drop_db = Unit {0}
  IsFit s c (act a) =
      (p : ℕ) → c ≡ some p → (e : Engine F G) → s.heap p ≡ some e → IsAction e.dimension a

  -- A command fits the state in which it was read.
  pub IsCommand-IsFit :
      (s : SharedState F G) (c : Connection) (command : Command F)
      → IsShared s
      → IsCommand (active_of s c) command
      → IsFit s c command
  IsCommand-IsFit s c reject_name h k = tt
  IsCommand-IsFit s c hang_up h k = tt
  IsCommand-IsFit s c use_freed h k = tt
  IsCommand-IsFit s c (select_db name dim cap) h k = (k.0, k.1)
  IsCommand-IsFit s c (create_hnsw_db name dim cap m ef) h k = (k.0, k.1)
  IsCommand-IsFit s c drop_db h k = tt
  IsCommand-IsFit s c (act a) h (dim, active, sized, words) = λ p at e eq.
      let small = (h.opened p e eq).small in
      let dims : dim ≡ e.dimension =
        unfold active_of get_dim in ground (arith, active, at, eq, small) in
      subst (λ d. IsAction d a) dims sized

  enter-IsShared :
      (env : Env G) (s : SharedState F G) (name : Name) (r : Request) (o : Opened F)
      → IsShared s
      → is_valid_db_name name ≡ true
      → find_name name s.catalog ≡ none
      → Word r.dimensions
      → ((m : Manager F) → o ≡ attached m → IsFile m r.dimensions)
      → Ensures IsShared (enter env s name r o)
  enter-IsShared env s name r (attached m) h valid new w file =
      add_database-IsShared s name (new_engine env (s.tombstones name) r m) h valid new
        (new_engine-IsOpen env (s.tombstones name) r m (file m refl) w)
  enter-IsShared env s name r (moved offsets) h valid new w file = tt
  enter-IsShared env s name r (failed x) h valid new w file = h

  choose-IsShared :
      (env : Env G) (z : F) (s : SharedState F G) (name : Name) (r : Request)
      → IsShared s
      → is_valid_db_name name ≡ true
      → Word r.dimensions
      → Ensures IsShared (choose env z s name r)
  choose-IsShared env z s name r h valid w = elim (Option-cases (find_name name s.catalog)) [
    | inr (p, listed) ↦ rw (choose_listed env z s name r p listed) h
    | inl new ↦ rw (choose_new env z s name r new) (
        if_elim (Ensures IsShared) (leb 2147483648 r.initial_capacity) _ _ (λ big. tt)
          (λ small.
            enter-IsShared env s name r _ h valid new w
              (λ m e. open_manager-IsFile env.calls z (s.files name) r m (h.disk name) e)))
  ]

  drop_database-IsShared :
      (env : Env G) (s : SharedState F G) (p : ℕ)
      → IsShared s
      → Ensures IsShared (drop_database env s p)
  drop_database-IsShared env s p h = elim (Option-cases (find_pointer p s.catalog)) [
    | inl lost ↦ rw (drop_unlisted env s p lost) h
    | inr (name, found) ↦
        let e = find_pointer-find_name p name s.catalog h.distinct found in
        rw (drop_listed env s p name found) (
          forget_elim (Ensures IsShared) env s p name
            (forgotten-IsShared s p name _ _ h e (λ st. left_files-IsFile s p name st h))
            (forgotten-IsShared s p name none _ h e (λ st eq. cc))
            (forgotten-IsShared s p name none none h e (λ st eq. cc)))
  ]

module _ {F G : Type 0} ⦃fl : Float F⦄ ⦃db : Double F⦄ ⦃draws : Draws F⦄
    ⦃graph : GraphIndex F G⦄ where
  perform_at-IsShared :
      (env : Env G) (s : SharedState F G) (p : ℕ) (a : Action F)
      → IsShared s
      → ((e : Engine F G) → s.heap p ≡ some e → IsAction e.dimension a)
      → Ensures IsShared (perform_at env s p a)
  perform_at-IsShared env s p a h sized = elim (Option-cases (s.heap p)) [
    | inl gone ↦ rw (perform_at_freed env s p a gone) tt
    | inr (e, eq) ↦
        let k =
          changed-IsShared s p e (perform env e a).0 h eq
            (perform-IsOpen env e a (h.opened p e eq) (sized e eq)) in
        rw (perform_at_open env s p e a eq)
          (if_elim (Ensures IsShared) (act_throws env e a) _ _ (λ thrown. k) (λ fine. k))
  ]

  -- A command that fits the state when it is served keeps the invariant.
  pub serve-IsShared :
      (env : Env G) (z : F) (s : SharedState F G) (c : Connection) (command : Command F)
      → IsShared s
      → IsFit s c command
      → Ensures IsShared (serve env z s c command)
  unfolding serve
  serve-IsShared env z s c reject_name h k = h
  serve-IsShared env z s c hang_up h k = h
  serve-IsShared env z s c use_freed h k = tt
  serve-IsShared env z s c (select_db name dim cap) h k =
      choose-IsShared env z s name (ivf_request dim cap) h k.0 k.1
  serve-IsShared env z s c (create_hnsw_db name dim cap m ef) h k =
      choose-IsShared env z s name (hnsw_request dim cap m ef) h k.0 k.1
  serve-IsShared env z s none drop_db h k = h
  serve-IsShared env z s (some p) drop_db h k = drop_database-IsShared env s p h
  serve-IsShared env z s none (act a) h k = h
  serve-IsShared env z s (some p) (act a) h k = perform_at-IsShared env s p a h (k p refl)
