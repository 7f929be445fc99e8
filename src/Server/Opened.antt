-- ===== src/Server/Opened.antt =====
-- What one round of the start-up of src/server.cpp does with the invariant.
use red_box_db.Base.{List, Option, [], arith, if_elim, leb, none, refl, some, true, ℕ, ◌≡◌, ◌≢◌}
use red_box_db.Metadata.{SpecificMetadata}
use red_box_db.Storage.Open.{Opened, Request, Stored, attached, failed, moved}
use red_box_db.Engine.Erase.{is_some}
use red_box_db.Server.{Env, Name, SharedState, find_name, is_valid_db_name}
use red_box_db.Storage.{Manager}
use red_box_db.Engine.Durable.{IsFile}
use red_box_db.Server.Serve.{Outcome, add_database, closed, new_engine, replied, undefined}
use red_box_db.Server.Framing.{Word}
use red_box_db.Server.Keeps.{IsShared, add_database-IsShared}
use red_box_db.Server.Startup.{booted, load_one, stored_request, take_in}
use red_box_db.Base.Names.{same_name_iff, same_name_refl}
use red_box_db.Engine.{Engine}
use red_box_db.Server.Engines.{AreFiles, IsOpen, new_engine-IsOpen, open_manager-IsFile}

pub stored_request_dim :
    (params : SpecificMetadata) → (stored_request params).dimensions ≡ params.dimensions
unfolding stored_request
stored_request_dim params = ground arith

module _ {F G : Type 0} where
  -- A state where `s` has come to: the databases that were open are, under their names.
  pub record IsGrown (s s' : SharedState F G) : Type 0 where
    pub shared : IsShared s'
    pub names :
        (n : Name) (p : ℕ) → find_name n s.catalog ≡ some p → find_name n s'.catalog ≡ some p

  -- One database more is open, under a name that was free, or the state is as it was.
  abbrev pub Adds : SharedState F G → Name → Outcome F G → Type 0
  Adds s name (replied s' c answer) =
      IsGrown s s'
      × (is_some (find_name name s'.catalog) ≡ true)
      × ((n : Name) → n ≢ name → find_name n s'.catalog ≡ find_name n s.catalog)
  Adds s name (closed s') = s' ≡ s
  Adds s name undefined = Unit {0}

  add_database-Adds :
      (s : SharedState F G) (name : Name) (e : Engine F G)
      → IsShared s
      → is_valid_db_name name ≡ true
      → find_name name s.catalog ≡ none
      → IsOpen e
      → Adds s name (replied (add_database s name e) none [])
  unfolding add_database find_name
  add_database-Adds s name e h valid new o = (
    record {
      shared = add_database-IsShared s name e h valid new o;
      names = λ n p at. ground (arith, same_name_iff name n);
    },
    ground (arith, same_name_refl name),
    λ n other. ground (arith, same_name_iff name n),
  )

  take_in-Adds :
      (env : Env G) (s : SharedState F G) (name : Name) (r : Request) (o : Opened F)
      → IsShared s
      → is_valid_db_name name ≡ true
      → find_name name s.catalog ≡ none
      → Word r.dimensions
      → ((m : Manager F) → o ≡ attached m → IsFile m r.dimensions)
      → Adds s name (take_in env s name r o)
  take_in-Adds env s name r (attached m) h valid new w file =
      add_database-Adds s name (new_engine env (s.tombstones name) r m) h valid new
        (new_engine-IsOpen env (s.tombstones name) r m (file m refl) w)
  take_in-Adds env s name r (moved offsets) h valid new w file = tt
  take_in-Adds env s name r (failed x) h valid new w file = refl

  pub load_one-Adds :
      (env : Env G) (z : F) (s : SharedState F G) (name : Name) (r : Request)
      → IsShared s
      → is_valid_db_name name ≡ true
      → find_name name s.catalog ≡ none
      → Word r.dimensions
      → Adds s name (load_one env z s name r)
  unfolding load_one
  load_one-Adds env z s name r h valid new w =
      if_elim (Adds s name) (leb 2147483648 r.initial_capacity) _ _ (λ big. tt)
        (λ small.
          take_in-Adds env s name r _ h valid new w
            (λ m e. open_manager-IsFile env.calls z (s.files name) r m (h.disk name) e))

  pub booted-IsShared :
      (files : Name → Option (Stored F)) (tombstones : Name → Option (List ℕ))
      → AreFiles files
      → IsShared {G = G} (booted files tombstones)
  unfolding find_name
  booted-IsShared files tombstones h = record {
    distinct = tt;
    linked = λ n p e. cc;
    unique = λ m n p a b. cc;
    owner = λ p alive. absurd (ground arith);
    fresh = λ p le. refl;
    opened = λ p e eq. cc;
    disk = h;
  }
