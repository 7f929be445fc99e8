-- ===== src/Server/Meta/Follows.antt =====
-- After each command of src/server.cpp the rows of the metadata store are those of the databases.
use red_box_db.Base.{Option-cases, arith, if_elim, inl, inr, leb, none, refl, some, ℕ, ◌≡◌, ◌⊎◌}
use red_box_db.Base.Names.{same_name_refl}
use red_box_db.MetadataStore.{Conversions, Table, create_database, row_of}
use red_box_db.Server.{Env, Name, SharedState, find_name, find_pointer}
use red_box_db.Server.Serve.{add_database, hnsw_request, ivf_request, new_engine}
use red_box_db.Server.Catalog.{find_pointer-find_name}
use red_box_db.Server.Keeps.{IsShared, forget_elim}
use red_box_db.Server.Meta.{
  with_store, MetaOutcome, NamedConnection, answered, choose_meta, drop_meta, ended, enter_store,
  perform_meta, perform_meta_at, serve_meta, unknown,
}
use red_box_db.Server.Meta.Counted.{thrown-IsCounted, perform_meta-IsCounted}
use red_box_db.Server.Meta.Matching.{CreateThrows, DropThrows, RefusesRow}
use red_box_db.Floats.{Double, Float}
use red_box_db.Cluster.{Draws}
use red_box_db.Graph.{GraphIndex}
use red_box_db.Storage.Open.{Opened, Request, attached, failed, moved}
use red_box_db.MetadataStore.Statements.{drop_row}
use red_box_db.Server.Receive.{
  Action, Command, act, create_hnsw_db, drop_db, hang_up, reject_name, select_db, use_freed,
}
use red_box_db.Server.Meta.Outcomes.{
  choose_meta_listed, choose_meta_new, drop_meta_made, drop_meta_refused, drop_meta_unlisted,
  enter_store_made, enter_store_refused, perform_meta_at_freed, perform_meta_at_open,
  perform_meta_at_refused,
}
use red_box_db.Server.Meta.Same.{ActThrowsAt, Throws, perform_meta-ActThrows}
use red_box_db.Server.Meta.Mirrors.{
  IsActive, IsMirror, add_database-IsMirror, changed-IsMirror, forgotten-IsMirror,
}

module _ {F G T : Type 0} ⦃table : Table T⦄ ⦃conv : Conversions⦄ where
  -- After a command.
  abbrev pub Mirrors : Type 0 → MetaOutcome F G T → Type 0
  Mirrors throws (answered s' t' c' out) = IsMirror s' t' × IsActive s' c'
  Mirrors throws (ended s' t') = IsMirror s' t' ⊎ throws
  Mirrors throws unknown = Unit {0}

  with_new : (P Q : Type 0) → P → (m : MetaOutcome F G T) → Mirrors Q m → Mirrors (P × Q) m
  with_new P Q p (answered s' t' c' out) h = h
  with_new P Q p (ended s' t') (inl k) = inl k
  with_new P Q p (ended s' t') (inr q) = inr (p, q)
  with_new P Q p unknown h = h

  enter_store-Mirrors :
      (env : Env G) (s : SharedState F G) (t : T) (name : Name) (r : Request) (o : Opened F)
      → IsShared s
      → IsMirror s t
      → find_name name s.catalog ≡ none
      → Mirrors (RefusesRow env s t name r o) (enter_store env s name r t o)
  unfolding enter_store create_database row_of
  enter_store-Mirrors env s t name r (attached m) h k new =
      let e = new_engine env (s.tombstones name) r m in
      let row = row_of r.dimensions r.index_type r.initial_capacity e.manager.header in
      elim (Option-cases (table.insert name row t)) [
        | inl refused ↦ rw (enter_store_refused env s name r t m refused) (inr refused)
        | inr (t', made) ↦ rw (enter_store_made env s name r t t' m made) (
          add_database-IsMirror s t t' name e row h k new made (refl, refl),
          λ alive. unfold add_database find_name in ground (arith, same_name_refl name),
        )
      ]
  enter_store-Mirrors env s t name r (moved offsets) h k new = tt
  enter_store-Mirrors env s t name r (failed x) h k new = inl k

  choose_meta-Mirrors :
      (env : Env G) (z : F) (s : SharedState F G) (t : T) (name : Name) (r : Request)
      → IsShared s
      → IsMirror s t
      → Mirrors (CreateThrows env z s t name r) (choose_meta env z s t name r)
  choose_meta-Mirrors env z s t name r h m = elim (Option-cases (find_name name s.catalog)) [
    | inr (p, at) ↦ rw (choose_meta_listed env z s t name r p at) (m, λ alive. at)
    | inl new ↦ rw (choose_meta_new env z s t name r new) (
        if_elim (Mirrors (CreateThrows env z s t name r)) (leb 2147483648 r.initial_capacity) _ _
          (λ big. tt) (λ small. with_new _ _ new _ (enter_store-Mirrors env s t name r _ h m new)))
  ]

  drop_meta-Mirrors :
      (env : Env G) (s : SharedState F G) (t : T) (p : ℕ) (name : Name)
      → IsShared s
      → IsMirror s t
      → IsActive s (some (p, name))
      → Mirrors (DropThrows s t p) (drop_meta env s t p name)
  drop_meta-Mirrors env s t p name h m active = elim (Option-cases (find_pointer p s.catalog)) [
    | inl lost ↦ rw (drop_meta_unlisted env s t p name lost) (m, active)
    | inr (listed, found) ↦ elim (Option-cases (drop_row listed t)) [
      | inl refused ↦ rw (drop_meta_refused env s t p name listed found refused) (inl m)
      | inr (t', made) ↦
          let at = find_pointer-find_name p listed s.catalog h.distinct found in
          let gone : table.delete listed t ≡ some t' = unfold drop_row in made in
          rw (drop_meta_made env s t t' p name listed found made) (
            forget_elim (λ o. Mirrors (DropThrows s t p) (with_store t' name o)) env s p listed
              (inl (forgotten-IsMirror s t t' p listed _ _ h m at gone))
              (inl (forgotten-IsMirror s t t' p listed _ _ h m at gone))
              (forgotten-IsMirror s t t' p listed _ _ h m at gone, tt))
    ]
  ]

module _ {F G T : Type 0} ⦃fl : Float F⦄ ⦃db : Double F⦄ ⦃draws : Draws F⦄ ⦃graph : GraphIndex F G⦄
    ⦃table : Table T⦄ ⦃conv : Conversions⦄ where
  perform_meta_at-Mirrors :
      (env : Env G) (s : SharedState F G) (t : T) (p : ℕ) (name : Name) (a : Action F)
      → IsShared s
      → IsMirror s t
      → IsActive s (some (p, name))
      → Mirrors (ActThrowsAt env s t p name a) (perform_meta_at env s t p name a)
  perform_meta_at-Mirrors env s t p name a h m active = elim (Option-cases (s.heap p)) [
    | inl gone ↦ rw (perform_meta_at_freed env s t p name a gone) tt
    | inr (e, at) ↦ elim (Option-cases (perform_meta env name e a t).1) [
      | inl refused ↦
          rw (perform_meta_at_refused env s t p name a e at refused)
            (elim (perform_meta-ActThrows env name e a t refused) [
              | inl stale ↦ inr (e, at, stale)
              | inr thrown ↦
                  let known = active (ground (arith, at)) in
                  inl (
                    changed-IsMirror s t t p name e (perform_meta env name e a t).0 h m known at
                      (thrown-IsCounted env name e a t thrown))
            ])
      | inr ((out, t'), made) ↦
          let known = active (ground (arith, at)) in
          rw (perform_meta_at_open env s t t' p name a e out at made) (
            changed-IsMirror s t t' p name e (perform_meta env name e a t).0 h m known at
                (perform_meta-IsCounted env name e a t t' out made),
            λ alive. known,
          )
    ]
  ]

  -- In a state that meets the invariant, where the rows of the metadata store are those of the open
  -- databases, with their counts of vectors and their next ids, and the connection knows the name
  -- of its database: after each command this is so again, for the connection as well if it was
  -- answered, unless the statement that this command makes throws.
  pub serve_meta-Mirrors :
      (env : Env G) (z : F) (s : SharedState F G) (t : T) (c : NamedConnection)
      (command : Command F)
      → IsShared s
      → IsMirror s t
      → IsActive s c
      → Mirrors (Throws env z s t c command) (serve_meta env z s t c command)
  unfolding serve_meta
  serve_meta-Mirrors env z s t c reject_name h m active = (m, active)
  serve_meta-Mirrors env z s t c hang_up h m active = inl m
  serve_meta-Mirrors env z s t c use_freed h m active = tt
  serve_meta-Mirrors env z s t c (select_db name dim cap) h m active =
      choose_meta-Mirrors env z s t name (ivf_request dim cap) h m
  serve_meta-Mirrors env z s t c (create_hnsw_db name dim cap m' ef) h m active =
      choose_meta-Mirrors env z s t name (hnsw_request dim cap m' ef) h m
  serve_meta-Mirrors env z s t none drop_db h m active = inl m
  serve_meta-Mirrors env z s t (some (p, name)) drop_db h m active =
      drop_meta-Mirrors env s t p name h m active
  serve_meta-Mirrors env z s t none (act a) h m active = inl m
  serve_meta-Mirrors env z s t (some (p, name)) (act a) h m active =
      perform_meta_at-Mirrors env s t p name a h m active
