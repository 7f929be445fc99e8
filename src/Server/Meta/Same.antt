-- ===== src/Server/Meta/Same.antt =====
-- A server with a metadata store answers as one without (src/server.cpp).
use red_box_db.Base.{
  Bool, Option, false, ◌⊎◌, List, Option-cases, [], arith, inl, inr, none, refl, some, true, ℕ, ◌∷◌,
  ◌≡◌,
}
use red_box_db.Floats.{Double, Float}
use red_box_db.Cluster.{Draws}
use red_box_db.Graph.{GraphIndex}
use red_box_db.Engine.{Engine}
use red_box_db.MetadataStore.{Conversions, Table}
use red_box_db.MetadataStore.Statements.{list_databases}
use red_box_db.MetadataStore.Listed.{bind-some}
use red_box_db.Server.{Env, Name, SharedState}
use red_box_db.Server.Receive.{
  Action, Command, act, create_hnsw_db, db_info, delete_id, drop_db, hang_up, insert_auto_vec,
  insert_vec, list_dbs, reject_name, search_n_vec, search_vec, select_db, set_hnsw_ef, set_probes,
  unknown_cmd, update_vec, use_freed,
}
use red_box_db.Server.Serve.{
  act_throws, has_thrown, removal_answer, hnsw_request, ivf_request, one, perform, perform_at,
  serve,
}
use red_box_db.Server.Outcomes.{perform_at_freed, perform_at_open}
use red_box_db.Server.Meta.{
  after_removal, NamedConnection, count_and_log, count_row, delete_op, insert_auto_op, insert_op,
  perform_meta, perform_meta_at, serve_meta,
}
use red_box_db.Server.Meta.Outcomes.{
  perform_meta_at_freed, perform_meta_at_open, perform_meta_at_refused,
}
use red_box_db.Engine.Insert.{insert, insert_auto}
use red_box_db.Engine.Tombstones.{remove}
use red_box_db.Server.Meta.Matching.{
  Answers, AnswersTo, CreateThrows, DropThrows, Matches, choose_meta-choose,
  drop_meta-drop_database, pointer_of,
}

module _ {F G T : Type 0} ⦃table : Table T⦄ ⦃conv : Conversions⦄ where
  count_and_log_refused :
      (name op answer : List ℕ) (e : Engine F G) (id : ℕ) (t : T)
      → count_and_log name e op id answer t ≡ none
      → count_row name e t ≡ none
  unfolding count_and_log
  count_and_log_refused name op answer e id t refused = elim (Option-cases (count_row name e t)) [
    | inl stale ↦ stale
    | inr (t', made) ↦ absurd (ground (arith, refused, made))
  ]

  count_and_log-answer :
      (name op answer out : List ℕ) (e : Engine F G) (id : ℕ) (t t' : T)
      → count_and_log name e op id answer t ≡ some (out, t')
      → out ≡ answer
  unfolding count_and_log
  count_and_log-answer name op answer out e id t t' made =
      let (u, counted, logged) = bind-some (count_row name e t) _ (out, t') made in
      ground (arith, logged)

  after_removal-answer :
      (name : Name) (e : Engine F G) (id : ℕ) (success : Option Bool) (t t' : T) (out : List ℕ)
      → after_removal name e id success t ≡ some (out, t')
      → out ≡ removal_answer success
  after_removal-answer name e id none t t' out made = cc
  after_removal-answer name e id (some true) t t' out made =
      count_and_log-answer name delete_op one out e id t t' made
  after_removal-answer name e id (some false) t t' out made = ground (arith, made)

  after_removal-refused :
      (name : Name) (e : Engine F G) (id : ℕ) (success : Option Bool) (t : T)
      → after_removal name e id success t ≡ none
      → ((success ≡ some true) × (count_row name e t ≡ none)) ⊎ (has_thrown success ≡ true)
  after_removal-refused name e id none t refused = inr refl
  after_removal-refused name e id (some true) t refused =
      inl (refl, count_and_log_refused name delete_op one e id t refused)
  after_removal-refused name e id (some false) t refused = cc

  after_removal-fine :
      (name : Name) (e : Engine F G) (id : ℕ) (success : Option Bool) (t : T) (x : List ℕ × T)
      → after_removal name e id success t ≡ some x
      → has_thrown success ≡ false
  after_removal-fine name e id none t x made = cc
  after_removal-fine name e id (some success) t x made = refl

module _ {F G T : Type 0} ⦃fl : Float F⦄ ⦃db : Double F⦄ ⦃draws : Draws F⦄ ⦃graph : GraphIndex F G⦄
    ⦃table : Table T⦄ ⦃conv : Conversions⦄ where
  perform_meta-engine :
      (env : Env G) (name : Name) (e : Engine F G) (a : Action F) (t : T)
      → (perform_meta env name e a t).0 ≡ (perform env e a).0
  unfolding perform_meta perform
  perform_meta-engine env name e (insert_vec id vec) t = refl
  perform_meta-engine env name e (search_vec query) t = refl
  perform_meta-engine env name e (delete_id id) t = refl
  perform_meta-engine env name e (update_vec id vec) t = refl
  perform_meta-engine env name e (insert_auto_vec vec) t = refl
  perform_meta-engine env name e (search_n_vec n query) t = refl
  perform_meta-engine env name e (set_probes n) t = refl
  perform_meta-engine env name e (set_hnsw_ef n) t = refl
  perform_meta-engine env name e list_dbs t = refl
  perform_meta-engine env name e db_info t = refl
  perform_meta-engine env name e unknown_cmd t = refl

  -- The answer, but for those that come from the store.
  perform_meta-answer :
      (env : Env G) (name : Name) (e : Engine F G) (a : Action F) (t t' : T) (out : List ℕ)
      → (perform_meta env name e a t).1 ≡ some (out, t')
      → AnswersTo a out (perform env e a).1
  unfolding perform_meta perform
  perform_meta-answer env name e (insert_vec id vec) t t' out made =
      count_and_log-answer name insert_op one out (insert e id vec) id t t' made
  perform_meta-answer env name e (search_vec query) t t' out made = ground (arith, made)
  perform_meta-answer env name e (delete_id id) t t' out made =
      let (e', success) = remove e id env.disk in
      after_removal-answer name e' id success t t' out made
  perform_meta-answer env name e (update_vec id vec) t t' out made = ground (arith, made)
  perform_meta-answer env name e (insert_auto_vec vec) t t' out made =
      count_and_log-answer name insert_auto_op _ out (insert_auto e vec).1 _ t t' made
  perform_meta-answer env name e (search_n_vec n query) t t' out made = ground (arith, made)
  perform_meta-answer env name e (set_probes n) t t' out made = ground (arith, made)
  perform_meta-answer env name e (set_hnsw_ef n) t t' out made = ground (arith, made)
  perform_meta-answer env name e list_dbs t t' out made = tt
  perform_meta-answer env name e db_info t t' out made = tt
  perform_meta-answer env name e unknown_cmd t t' out made = ground (arith, made)

  -- The statement that counts the vectors, or that lists the databases, throws.
  abbrev pub ActThrows : Env G → Name → Engine F G → T → Action F → Type 0
  ActThrows env name e t (insert_vec id vec) = count_row name (insert e id vec) t ≡ none
  ActThrows env name e t (delete_id id) =
      ((remove e id env.disk).1 ≡ some true) × (count_row name (remove e id env.disk).0 t ≡ none)
  ActThrows env name e t (insert_auto_vec vec) = count_row name (insert_auto e vec).1 t ≡ none
  ActThrows env name e t list_dbs = list_databases t ≡ none
  ActThrows env name e t a = ⊥

  pub perform_meta-ActThrows :
      (env : Env G) (name : Name) (e : Engine F G) (a : Action F) (t : T)
      → (perform_meta env name e a t).1 ≡ none
      → ActThrows env name e t a ⊎ (act_throws env e a ≡ true)
  unfolding perform_meta
  perform_meta-ActThrows env name e (insert_vec id vec) t refused =
      inl (count_and_log_refused name insert_op one (insert e id vec) id t refused)
  perform_meta-ActThrows env name e (search_vec query) t refused = cc
  perform_meta-ActThrows env name e (delete_id id) t refused =
      let (e', success) = remove e id env.disk in after_removal-refused name e' id success t refused
  perform_meta-ActThrows env name e (update_vec id vec) t refused = cc
  perform_meta-ActThrows env name e (insert_auto_vec vec) t refused =
      inl (count_and_log_refused name insert_auto_op _ (insert_auto e vec).1 _ t refused)
  perform_meta-ActThrows env name e (search_n_vec n query) t refused = cc
  perform_meta-ActThrows env name e (set_probes n) t refused = cc
  perform_meta-ActThrows env name e (set_hnsw_ef n) t refused = cc
  perform_meta-ActThrows env name e list_dbs t refused = elim (Option-cases (list_databases t)) [
    | inl gone ↦ inl gone
    | inr (dbs, listed) ↦ absurd (ground (arith, refused, listed))
  ]
  perform_meta-ActThrows env name e db_info t refused = cc
  perform_meta-ActThrows env name e unknown_cmd t refused = cc

  -- An action that is answered does not throw.
  perform_meta-fine :
      (env : Env G) (name : Name) (e : Engine F G) (a : Action F) (t : T) (x : List ℕ × T)
      → (perform_meta env name e a t).1 ≡ some x
      → act_throws env e a ≡ false
  unfolding perform_meta
  perform_meta-fine env name e (insert_vec id vec) t x made = refl
  perform_meta-fine env name e (search_vec query) t x made = refl
  perform_meta-fine env name e (delete_id id) t x made =
      let (e', success) = remove e id env.disk in after_removal-fine name e' id success t x made
  perform_meta-fine env name e (update_vec id vec) t x made = refl
  perform_meta-fine env name e (insert_auto_vec vec) t x made = refl
  perform_meta-fine env name e (search_n_vec n query) t x made = refl
  perform_meta-fine env name e (set_probes n) t x made = refl
  perform_meta-fine env name e (set_hnsw_ef n) t x made = refl
  perform_meta-fine env name e list_dbs t x made = refl
  perform_meta-fine env name e db_info t x made = refl
  perform_meta-fine env name e unknown_cmd t x made = refl

  abbrev pub ActThrowsAt : Env G → SharedState F G → T → ℕ → Name → Action F → Type 0
  ActThrowsAt env s t p name a = (e : Engine F G) × (s.heap p ≡ some e) × ActThrows env name e t a

  -- The statement that the command makes throws.
  abbrev pub Throws : Env G → F → SharedState F G → T → NamedConnection → Command F → Type 0
  Throws env z s t c (select_db name dim cap) = CreateThrows env z s t name (ivf_request dim cap)
  Throws env z s t c (create_hnsw_db name dim cap m ef) =
      CreateThrows env z s t name (hnsw_request dim cap m ef)
  Throws env z s t (some (p, name)) drop_db = DropThrows s t p
  Throws env z s t (some (p, name)) (act a) = ActThrowsAt env s t p name a
  Throws env z s t c command = ⊥

  perform_meta_at-perform_at :
      (env : Env G) (s : SharedState F G) (t : T) (p : ℕ) (name : Name) (a : Action F)
      → Matches
          (AnswersTo a)
          (ActThrowsAt env s t p name a)
          (perform_meta_at env s t p name a)
          (perform_at env s p a)
  perform_meta_at-perform_at env s t p name a = elim (Option-cases (s.heap p)) [
    | inl gone ↦
        rw (perform_meta_at_freed env s t p name a gone, perform_at_freed env s p a gone) refl
    | inr (e, at) ↦ elim (Option-cases (perform_meta env name e a t).1) [
      | inl refused ↦
          rw (perform_meta_at_refused env s t p name a e at refused)
            (elim (perform_meta-ActThrows env name e a t refused) [
              | inl stale ↦ inr (e, at, stale)
              | inr thrown ↦
                  rw (perform_at_open env s p e a at, perform_meta-engine env name e a t, thrown)
                    (inl refl)
            ])
      | inr ((out, t'), made) ↦
          rw
            (
              perform_meta_at_open env s t t' p name a e out at made,
              perform_at_open env s p e a at,
              perform_meta-engine env name e a t,
              perform_meta-fine env name e a t (out, t') made,
            )
            ((perform env e a).1, refl, perform_meta-answer env name e a t t' out made)
    ]
  ]

  -- With a metadata store, whatever happened before, a command that is answered leads to the same
  -- shared state and the same active database as without a store, with the same answer unless it
  -- asks for the list of the databases or about one; a command that is undefined is so without a
  -- store; and a connection ends only where it ends without a store, in the same state, or where the
  -- statement that this command makes throws.
  pub serve_meta-serve :
      (env : Env G) (z : F) (s : SharedState F G) (t : T) (c : NamedConnection)
      (command : Command F)
      → Matches
          (Answers command)
          (Throws env z s t c command)
          (serve_meta env z s t c command)
          (serve env z s (pointer_of c) command)
  unfolding serve_meta serve
  serve_meta-serve env z s t c reject_name = (0 ∷ [], refl, refl)
  serve_meta-serve env z s t c hang_up = inl refl
  serve_meta-serve env z s t c use_freed = refl
  serve_meta-serve env z s t c (select_db name dim cap) =
      choose_meta-choose env z s t name (ivf_request dim cap)
  serve_meta-serve env z s t c (create_hnsw_db name dim cap m ef) =
      choose_meta-choose env z s t name (hnsw_request dim cap m ef)
  serve_meta-serve env z s t none drop_db = inl refl
  serve_meta-serve env z s t (some (p, name)) drop_db = drop_meta-drop_database env s t p name
  serve_meta-serve env z s t none (act a) = inl refl
  serve_meta-serve env z s t (some (p, name)) (act a) = perform_meta_at-perform_at env s t p name a
