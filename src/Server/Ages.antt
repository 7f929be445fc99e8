-- ===== src/Server/Ages.antt =====
-- What a command of src/server.cpp leaves to the commands that other connections have read and not
-- served yet.
use red_box_db.Base.{
  List, Option, Bool-cases, Option-cases, arith, if_elim, inl, inr, leb, none, refl, some,
  update_map, ℕ, ◌<◌, ◌==◌, ◌≡◌, ◌≤◌,
}
use red_box_db.Floats.{Double, Float}
use red_box_db.Cluster.{Draws}
use red_box_db.Graph.{GraphIndex}
use red_box_db.Engine.{Engine}
use red_box_db.Storage.Open.{Opened, Request, Stored, attached, failed, moved}
use red_box_db.Server.{Connection, Env, Name, SharedState, find_name, find_pointer}
use red_box_db.Server.Receive.{
  Action, Command, act, create_hnsw_db, drop_db, hang_up, reject_name, select_db, use_freed,
}
use red_box_db.Server.Serve.{
  act_throws, forgotten, Outcome, add_database, choose, closed, drop_database, hnsw_request,
  ivf_request, perform, perform_at, replied, serve, undefined,
}
use red_box_db.Server.Engines.{perform_dim}
use red_box_db.Server.Keeps.{IsShared, below-next, forget_elim}
use red_box_db.Server.Outcomes.{
  choose_listed, choose_new, drop_listed, drop_unlisted, enter, perform_at_freed, perform_at_open,
}
use red_box_db.Server.Commands.{IsFit}

module _ {F G : Type 0} where
  -- No address is given again, and a database that is open had the same dimension before.
  pub record IsLater (s s' : SharedState F G) : Type 0 where
    pub next : s.next ≤ s'.next
    pub past :
        (p : ℕ) (e' : Engine F G)
        → p < s.next
        → s'.heap p ≡ some e'
        → (e : Engine F G) × (s.heap p ≡ some e) × (e'.dimension ≡ e.dimension)

  -- The address was given at some time.
  abbrev pub IsGiven : SharedState F G → Connection → Type 0
  IsGiven s none = Unit {0}
  IsGiven s (some p) = p < s.next

  abbrev pub Ages : SharedState F G → Outcome F G → Type 0
  Ages s (replied s' c answer) = IsLater s s' × IsGiven s' c
  Ages s (closed s') = IsLater s s'
  Ages s undefined = Unit {0}

  pub same-IsLater : (s : SharedState F G) → IsLater s s
  same-IsLater s = record { next = omega arith; past = λ p e' lt eq. (e', eq, refl) }

  add_database-IsLater :
      (s : SharedState F G) (name : Name) (e : Engine F G) → IsLater s (add_database s name e)
  unfolding add_database
  add_database-IsLater s name e = record {
    next = omega arith;
    past = λ p e' lt eq. (e', ground (arith, eq), refl);
  }

  forgotten-IsLater :
      (s : SharedState F G) (p : ℕ) (name : Name) (file : Option (Stored F))
      (tombstone_file : Option (List ℕ))
      → IsLater s (forgotten s p name file tombstone_file)
  forgotten-IsLater s p name file tombstone_file = record {
    next = omega arith;
    past = λ q e' lt eq. (e', ground (arith, eq), refl);
  }

  changed-IsLater :
      (s : SharedState F G) (p : ℕ) (e e' : Engine F G)
      → s.heap p ≡ some e
      → e'.dimension ≡ e.dimension
      → IsLater s (record s { heap = update_map s.heap p (some e') })
  changed-IsLater s p e e' eq dims = record {
    next = omega arith;
    past = λ q e'' lt f. elim (Bool-cases (p == q)) [
      | inl this ↦ (e, ground (arith, eq), ground (arith, dims))
      | inr other ↦ (e'', ground (arith, f), refl)
    ];
  }

  enter-Ages :
      (env : Env G) (s : SharedState F G) (name : Name) (r : Request) (o : Opened F)
      → Ages s (enter env s name r o)
  unfolding add_database
  enter-Ages env s name r (attached m) = (add_database-IsLater s name _, omega arith)
  enter-Ages env s name r (moved offsets) = tt
  enter-Ages env s name r (failed x) = same-IsLater s

  choose-Ages :
      (env : Env G) (z : F) (s : SharedState F G) (name : Name) (r : Request)
      → IsShared s
      → Ages s (choose env z s name r)
  choose-Ages env z s name r h = elim (Option-cases (find_name name s.catalog)) [
    | inr (p, listed) ↦
        rw (choose_listed env z s name r p listed) (same-IsLater s, below-next s name p h listed)
    | inl new ↦ rw (choose_new env z s name r new) (
        if_elim (Ages s) (leb 2147483648 r.initial_capacity) _ _ (λ big. tt)
          (λ small. enter-Ages env s name r _))
  ]

  drop_database-Ages :
      (env : Env G) (s : SharedState F G) (p : ℕ) → p < s.next → Ages s (drop_database env s p)
  drop_database-Ages env s p lt = elim (Option-cases (find_pointer p s.catalog)) [
    | inl lost ↦ rw (drop_unlisted env s p lost) (same-IsLater s, lt)
    | inr (name, found) ↦ rw (drop_listed env s p name found) (
        forget_elim (Ages s) env s p name (forgotten-IsLater s p name _ _)
          (forgotten-IsLater s p name _ _) (forgotten-IsLater s p name _ _, tt))
  ]

  -- What was read still fits, and where it did not need anything it does not now.
  pub later-IsFit :
      (s s' : SharedState F G) (c : Connection) (command : Command F)
      → IsLater s s'
      → IsGiven s c
      → IsFit s c command
      → IsFit s' c command
  later-IsFit s s' c reject_name l g k = tt
  later-IsFit s s' c hang_up l g k = tt
  later-IsFit s s' c use_freed l g k = tt
  later-IsFit s s' c (select_db name dim cap) l g k = k
  later-IsFit s s' c (create_hnsw_db name dim cap m ef) l g k = k
  later-IsFit s s' c drop_db l g k = tt
  later-IsFit s s' none (act a) l g k = λ p at e' eq. absurd (cc)
  later-IsFit s s' (some q) (act a) l g k = λ p at e' eq.
      let (e, was, dims) = l.past p e' (ground (arith, at, g)) eq in rw dims (k p at e was)

  pub later-IsGiven :
      (s s' : SharedState F G) (c : Connection) → IsLater s s' → IsGiven s c → IsGiven s' c
  later-IsGiven s s' none l g = tt
  later-IsGiven s s' (some p) l g = omega (arith, l.next)

module _ {F G : Type 0} ⦃fl : Float F⦄ ⦃db : Double F⦄ ⦃draws : Draws F⦄
    ⦃graph : GraphIndex F G⦄ where
  perform_at-Ages :
      (env : Env G) (s : SharedState F G) (p : ℕ) (a : Action F)
      → p < s.next
      → Ages s (perform_at env s p a)
  perform_at-Ages env s p a lt = elim (Option-cases (s.heap p)) [
    | inl gone ↦ rw (perform_at_freed env s p a gone) tt
    | inr (e, eq) ↦ rw (perform_at_open env s p e a eq) (
        if_elim (Ages s) (act_throws env e a) _ _
          (λ thrown. changed-IsLater s p e (perform env e a).0 eq (perform_dim env e a))
          (λ fine. (changed-IsLater s p e (perform env e a).0 eq (perform_dim env e a), lt)))
  ]

  -- A command leaves every address that was given as it was, or with a database of the same
  -- dimension, or freed; and the address that its connection has then was given.
  pub serve-Ages :
      (env : Env G) (z : F) (s : SharedState F G) (c : Connection) (command : Command F)
      → IsShared s
      → IsGiven s c
      → Ages s (serve env z s c command)
  unfolding serve
  serve-Ages env z s c reject_name h g = (same-IsLater s, g)
  serve-Ages env z s c hang_up h g = same-IsLater s
  serve-Ages env z s c use_freed h g = tt
  serve-Ages env z s c (select_db name dim cap) h g =
      choose-Ages env z s name (ivf_request dim cap) h
  serve-Ages env z s c (create_hnsw_db name dim cap m ef) h g =
      choose-Ages env z s name (hnsw_request dim cap m ef) h
  serve-Ages env z s none drop_db h g = same-IsLater s
  serve-Ages env z s (some p) drop_db h g = drop_database-Ages env s p g
  serve-Ages env z s none (act a) h g = same-IsLater s
  serve-Ages env z s (some p) (act a) h g = perform_at-Ages env s p a g
