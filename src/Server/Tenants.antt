-- ===== src/Server/Tenants.antt =====
-- The databases behind the connections of src/server.cpp: a command reaches one of them, and what
-- dropping one leaves.
use red_box_db.Base.Names.{same_name_iff}
use red_box_db.Base.{
  List, Option, Option-cases, ap, arith, if_elim, inl, inr, leb, none, refl, some, true, ℕ, ◌≡◌,
  ◌≢◌,
}
use red_box_db.Floats.{Double, Float}
use red_box_db.Cluster.{Draws}
use red_box_db.Graph.{GraphIndex}
use red_box_db.Engine.{Engine}
use red_box_db.Engine.Erase.{is_some}
use red_box_db.Storage.Open.{Opened, Request, Stored, attached, failed, moved}
use red_box_db.Server.{Connection, Env, Name, SharedState, find_name, find_pointer}
use red_box_db.Server.Receive.{
  Action, Command, act, create_hnsw_db, drop_db, hang_up, reject_name, select_db, use_freed,
}
use red_box_db.Server.Serve.{
  act_throws, forgotten, Outcome, add_database, choose, closed, drop_database, hnsw_request,
  ivf_request, new_engine, perform_at, replied, serve, undefined,
}
use red_box_db.Server.Catalog.{find_name-erase_name, find_pointer-find_name}
use red_box_db.Server.Keeps.{IsShared, forget_elim}
use red_box_db.Server.Outcomes.{
  choose_listed, choose_new, drop_listed, drop_unlisted, enter, perform_at_freed, perform_at_open,
}

module _ {F G : Type 0} where
  -- The database at q and the names that lead to it are as they were.
  pub record IsKept (s : SharedState F G) (q : ℕ) (s' : SharedState F G) : Type 0 where
    pub memory : s'.heap q ≡ s.heap q
    pub names : (n : Name) → find_name n s.catalog ≡ some q → find_name n s'.catalog ≡ some q

  abbrev pub Leaves : SharedState F G → ℕ → Outcome F G → Type 0
  Leaves s q (replied s' c answer) = IsKept s q s'
  Leaves s q (closed s') = IsKept s q s'
  Leaves s q undefined = Unit {0}

  same-IsKept : (s : SharedState F G) (q : ℕ) → IsKept s q s
  same-IsKept s q = record { memory = refl; names = λ n e. e }

  add_database-IsKept :
      (s : SharedState F G) (name : Name) (e : Engine F G) (q : ℕ)
      → IsShared s
      → find_name name s.catalog ≡ none
      → is_some (s.heap q) ≡ true
      → IsKept s q (add_database s name e)
  unfolding add_database find_name
  add_database-IsKept s name e q h new alive = record {
    memory = ground (arith, h.fresh q);
    names = λ n f. ground (arith, same_name_iff name n);
  }

  forgotten-IsKept :
      (s : SharedState F G) (p : ℕ) (name : Name) (q : ℕ) (file : Option (Stored F))
      (tombstone_file : Option (List ℕ))
      → find_name name s.catalog ≡ some p
      → p ≢ q
      → IsKept s q (forgotten s p name file tombstone_file)
  forgotten-IsKept s p name q file tombstone_file e other = record {
    memory = ground arith;
    names = λ n f. ground (arith, find_name-erase_name name n s.catalog, same_name_iff name n);
  }

  enter-Leaves :
      (env : Env G) (s : SharedState F G) (name : Name) (r : Request) (o : Opened F) (q : ℕ)
      → IsShared s
      → find_name name s.catalog ≡ none
      → is_some (s.heap q) ≡ true
      → Leaves s q (enter env s name r o)
  enter-Leaves env s name r (attached m) q h new alive =
      add_database-IsKept s name (new_engine env (s.tombstones name) r m) q h new alive
  enter-Leaves env s name r (moved offsets) q h new alive = tt
  enter-Leaves env s name r (failed x) q h new alive = same-IsKept s q

  choose-Leaves :
      (env : Env G) (z : F) (s : SharedState F G) (name : Name) (r : Request) (q : ℕ)
      → IsShared s
      → is_some (s.heap q) ≡ true
      → Leaves s q (choose env z s name r)
  choose-Leaves env z s name r q h alive = elim (Option-cases (find_name name s.catalog)) [
    | inr (p, listed) ↦ rw (choose_listed env z s name r p listed) (same-IsKept s q)
    | inl new ↦ rw (choose_new env z s name r new) (
        if_elim (Leaves s q) (leb 2147483648 r.initial_capacity) _ _ (λ big. tt)
          (λ small. enter-Leaves env s name r _ q h new alive))
  ]

  drop_database-Leaves :
      (env : Env G) (s : SharedState F G) (p q : ℕ)
      → IsShared s
      → p ≢ q
      → Leaves s q (drop_database env s p)
  drop_database-Leaves env s p q h other = elim (Option-cases (find_pointer p s.catalog)) [
    | inl lost ↦ rw (drop_unlisted env s p lost) (same-IsKept s q)
    | inr (name, found) ↦
        let e = find_pointer-find_name p name s.catalog h.distinct found in
        rw (drop_listed env s p name found) (
          forget_elim (Leaves s q) env s p name (forgotten-IsKept s p name q _ _ e other)
            (forgotten-IsKept s p name q _ _ e other) (forgotten-IsKept s p name q _ _ e other))
  ]

module _ {F G : Type 0} ⦃fl : Float F⦄ ⦃db : Double F⦄ ⦃draws : Draws F⦄
    ⦃graph : GraphIndex F G⦄ where
  perform_at-Leaves :
      (env : Env G) (s : SharedState F G) (p q : ℕ) (a : Action F)
      → p ≢ q
      → Leaves s q (perform_at env s p a)
  perform_at-Leaves env s p q a other = elim (Option-cases (s.heap p)) [
    | inl gone ↦ rw (perform_at_freed env s p a gone) tt
    | inr (e, eq) ↦ rw (perform_at_open env s p e a eq) (
        if_elim (Leaves s q) (act_throws env e a) _ _
          (λ thrown. record { memory = ground arith; names = λ n f. f })
          (λ fine. record { memory = ground arith; names = λ n f. f }))
  ]

  -- In a state that meets the invariant, whatever a connection sends, an open database that is not
  -- its own stays as it is, and the names that lead there still do.
  pub serve-Leaves :
      (env : Env G) (z : F) (s : SharedState F G) (c : Connection) (command : Command F) (q : ℕ)
      → IsShared s
      → is_some (s.heap q) ≡ true
      → c ≢ some q
      → Leaves s q (serve env z s c command)
  unfolding serve
  serve-Leaves env z s c reject_name q h alive other = same-IsKept s q
  serve-Leaves env z s c hang_up q h alive other = same-IsKept s q
  serve-Leaves env z s c use_freed q h alive other = tt
  serve-Leaves env z s c (select_db name dim cap) q h alive other =
      choose-Leaves env z s name (ivf_request dim cap) q h alive
  serve-Leaves env z s c (create_hnsw_db name dim cap m ef) q h alive other =
      choose-Leaves env z s name (hnsw_request dim cap m ef) q h alive
  serve-Leaves env z s none drop_db q h alive other = same-IsKept s q
  serve-Leaves env z s (some p) drop_db q h alive other =
      drop_database-Leaves env s p q h (λ e. other (ap some e))
  serve-Leaves env z s none (act a) q h alive other = same-IsKept s q
  serve-Leaves env z s (some p) (act a) q h alive other =
      perform_at-Leaves env s p q a (λ e. other (ap some e))
