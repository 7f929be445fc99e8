-- ===== src/Server/Meta/Matching.antt =====
-- The server of src/server.cpp with a metadata store does with a command what it does without one.
use red_box_db.Base.{
  Bool-cases, List, Option-cases, inl, inr, leb, none, refl, replicate, some, ℕ, ◌≡◌, ◌⊎◌,
}
use red_box_db.Storage.Open.{Opened, Request, attached, failed, moved, open_manager}
use red_box_db.MetadataStore.{Table, create_database}
use red_box_db.MetadataStore.Statements.{drop_row}
use red_box_db.Server.{Connection, Env, Name, SharedState, find_name, find_pointer}
use red_box_db.Server.Receive.{Action, Command, act, db_info, list_dbs}
use red_box_db.Server.Serve.{
  Outcome, choose, closed, drop_database, new_engine, one, replied, undefined, zero_char,
}
use red_box_db.Server.Keeps.{forget_elim}
use red_box_db.Server.Outcomes.{choose_listed, choose_new, drop_listed, drop_unlisted, enter}
use red_box_db.Server.Meta.{
  with_store, MetaOutcome, NamedConnection, answered, choose_meta, drop_meta, ended, enter_store,
  unknown,
}
use red_box_db.Server.Meta.Outcomes.{
  choose_meta_listed, choose_meta_new, drop_meta_made, drop_meta_refused, drop_meta_unlisted,
  enter_store_made, enter_store_refused,
}

abbrev pub pointer_of : NamedConnection → Connection
pointer_of none = none
pointer_of (some (p, name)) = some p

module _ {F : Type 0} where
  -- The two commands whose answers come from the store may differ, no others.
  abbrev pub AnswersTo : Action F → List ℕ → List ℕ → Type 0
  AnswersTo list_dbs out out' = Unit {0}
  AnswersTo db_info out out' = Unit {0}
  AnswersTo a out out' = out ≡ out'

  abbrev pub Answers : Command F → List ℕ → List ℕ → Type 0
  Answers (act a) out out' = AnswersTo a out out'
  Answers command out out' = out ≡ out'

module _ {F G T : Type 0} ⦃table : Table T⦄ where
  -- The row of the database that was opened is refused.
  abbrev pub RefusesRow : Env G → SharedState F G → T → Name → Request → Opened F → Type 0
  RefusesRow env s t name r (attached m) =
      create_database name r.dimensions r.index_type r.initial_capacity
        (new_engine env (s.tombstones name) r m).manager.header t
      ≡ none
  RefusesRow env s t name r (moved offsets) = ⊥
  RefusesRow env s t name r (failed x) = ⊥

  -- The name is new, its database is opened, and the insertion of its row throws.
  abbrev pub CreateThrows : Env G → F → SharedState F G → T → Name → Request → Type 0
  CreateThrows env z s t name r =
      (find_name name s.catalog ≡ none)
      × RefusesRow env s t name r
          (open_manager env.calls (replicate r.dimensions z) (s.files name) r)

  -- The deletion of the row of the database at p throws.
  abbrev pub DropThrows : SharedState F G → T → ℕ → Type 0
  DropThrows s t p =
      (name : Name) × (find_pointer p s.catalog ≡ some name) × (drop_row name t ≡ none)

module _ {F G T : Type 0} where
  -- What a command did with a store, and what it does without one; `throws` tells whether the
  -- statement that the command makes throws.
  abbrev pub Matches :
      (List ℕ → List ℕ → Type 0) → Type 0 → MetaOutcome F G T → Outcome F G → Type 0
  Matches agree throws (answered s' t' c' out) o =
      (out' : List ℕ) × (o ≡ replied s' (pointer_of c') out') × agree out out'
  Matches agree throws (ended s' t') o = (o ≡ closed s') ⊎ throws
  Matches agree throws unknown o = o ≡ undefined

module _ {F G T : Type 0} ⦃table : Table T⦄ where
  enter_store-enter :
      (env : Env G) (s : SharedState F G) (name : Name) (r : Request) (t : T) (o : Opened F)
      → Matches ◌≡◌
          (RefusesRow env s t name r o)
          (enter_store env s name r t o)
          (enter env s name r o)
  unfolding enter_store
  enter_store-enter env s name r t (attached m) =
      let e = new_engine env (s.tombstones name) r m in
      elim (Option-cases
        (create_database name r.dimensions r.index_type r.initial_capacity e.manager.header t)) [
          | inl refused ↦ rw (enter_store_refused env s name r t m refused) (inr refused)
          | inr (t', made) ↦ rw (enter_store_made env s name r t t' m made) (one, refl, refl)
        ]
  enter_store-enter env s name r t (moved offsets) = refl
  enter_store-enter env s name r t (failed x) = inl refl

  with_new :
      (P Q : Type 0)
      → P
      → (m : MetaOutcome F G T) (o : Outcome F G) → Matches ◌≡◌ Q m o
      → Matches ◌≡◌ (P × Q) m o
  with_new P Q p (answered s' t' c' out) o h = h
  with_new P Q p (ended s' t') o (inl same) = inl same
  with_new P Q p (ended s' t') o (inr q) = inr (p, q)
  with_new P Q p unknown o h = h

  pub choose_meta-choose :
      (env : Env G) (z : F) (s : SharedState F G) (t : T) (name : Name) (r : Request)
      → Matches ◌≡◌
          (CreateThrows env z s t name r)
          (choose_meta env z s t name r)
          (choose env z s name r)
  choose_meta-choose env z s t name r = elim (Option-cases (find_name name s.catalog)) [
    | inr (p, listed) ↦
        rw (choose_meta_listed env z s t name r p listed, choose_listed env z s name r p listed)
          (one, refl, refl)
    | inl new ↦
        rw (choose_meta_new env z s t name r new, choose_new env z s name r new)
          (elim (Bool-cases (leb 2147483648 r.initial_capacity)) [
            | inl big ↦ rw big refl
            | inr small ↦ rw small (with_new _ _ new _ _ (enter_store-enter env s name r t _))
          ])
  ]

  pub drop_meta-drop_database :
      (env : Env G) (s : SharedState F G) (t : T) (p : ℕ) (name : Name)
      → Matches ◌≡◌ (DropThrows s t p) (drop_meta env s t p name) (drop_database env s p)
  drop_meta-drop_database env s t p name = elim (Option-cases (find_pointer p s.catalog)) [
    | inl lost ↦
        rw (drop_meta_unlisted env s t p name lost, drop_unlisted env s p lost)
          (zero_char, refl, refl)
    | inr (found_name, found) ↦ elim (Option-cases (drop_row found_name t)) [
      | inl refused ↦
          rw (drop_meta_refused env s t p name found_name found refused)
            (inr (found_name, found, refused))
      | inr (t', made) ↦
          rw
            (
              drop_meta_made env s t t' p name found_name found made,
              drop_listed env s p found_name found,
            )
            (forget_elim (λ o. Matches ◌≡◌ (DropThrows s t p) (with_store t' name o) o) env s p
              found_name (inl refl) (inl refl) (one, refl, refl))
    ]
  ]
