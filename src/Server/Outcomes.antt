-- ===== src/Server/Outcomes.antt =====
-- The outcomes of the commands of src/server.cpp, by what they find.
use red_box_db.Base.{arith, if◌then◌else◌, leb, none, replicate, some, update_map, ℕ, ◌≡◌}
use red_box_db.Floats.{Double, Float}
use red_box_db.Cluster.{Draws}
use red_box_db.Graph.{GraphIndex}
use red_box_db.Engine.{Engine}
use red_box_db.Storage.Open.{Opened, Request, attached, failed, moved, open_manager}
use red_box_db.Server.{Env, Name, SharedState, find_name, find_pointer}
use red_box_db.Server.Receive.{Action}
use red_box_db.Server.Serve.{
  Outcome, add_database, act_throws, forget, choose, closed, drop_database, new_engine, one,
  perform, perform_at, replied, undefined, zero_char,
}

module _ {F G : Type 0} where
  -- The outcome of opening the file of a name that the catalog does not have.
  abbrev pub enter : Env G → SharedState F G → Name → Request → Opened F → Outcome F G
  enter env s name r (attached m) =
      replied (add_database s name (new_engine env (s.tombstones name) r m)) (some s.next) one
  enter env s name r (moved offsets) = undefined
  enter env s name r (failed x) = closed s

  pub choose_listed :
      (env : Env G) (z : F) (s : SharedState F G) (name : Name) (r : Request) (p : ℕ)
      → find_name name s.catalog ≡ some p
      → choose env z s name r ≡ replied s (some p) one
  unfolding choose
  choose_listed env z s name r p listed = ground (arith, listed)

  pub choose_new :
      (env : Env G) (z : F) (s : SharedState F G) (name : Name) (r : Request)
      → find_name name s.catalog ≡ none
      → choose env z s name r ≡ (
          if leb 2147483648 r.initial_capacity
          then undefined
          else enter env s name r
              (open_manager env.calls (replicate r.dimensions z) (s.files name) r))
  unfolding choose
  choose_new env z s name r new = ground (arith, new)

  pub drop_listed :
      (env : Env G) (s : SharedState F G) (p : ℕ) (name : Name)
      → find_pointer p s.catalog ≡ some name
      → drop_database env s p ≡ forget env s p name
  unfolding drop_database
  drop_listed env s p name found = ground (arith, found)

  pub drop_unlisted :
      (env : Env G) (s : SharedState F G) (p : ℕ)
      → find_pointer p s.catalog ≡ none
      → drop_database env s p ≡ replied s (some p) zero_char
  unfolding drop_database
  drop_unlisted env s p lost = ground (arith, lost)

module _ {F G : Type 0} ⦃fl : Float F⦄ ⦃db : Double F⦄ ⦃draws : Draws F⦄
    ⦃graph : GraphIndex F G⦄ where
  pub perform_at_freed :
      (env : Env G) (s : SharedState F G) (p : ℕ) (a : Action F)
      → s.heap p ≡ none
      → perform_at env s p a ≡ undefined
  unfolding perform_at
  perform_at_freed env s p a gone = ground (arith, gone)

  pub perform_at_open :
      (env : Env G) (s : SharedState F G) (p : ℕ) (e : Engine F G) (a : Action F)
      → s.heap p ≡ some e
      → perform_at env s p a ≡ (
          let s' = record s { heap = update_map s.heap p (some (perform env e a).0) } in
          if act_throws env e a then closed s' else replied s' (some p) (perform env e a).1)
  unfolding perform_at
  perform_at_open env s p e a eq = ground (arith, eq)
