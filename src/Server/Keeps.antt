-- ===== src/Server/Keeps.antt =====
-- The invariant of the state that the connections of src/server.cpp share, and that every command
-- keeps it.
use red_box_db.Base.Names.{same_name, same_name_iff, same_name_refl}
use red_box_db.Base.{
  List, Option, Option-cases, if_elim, not, refl, Bool-cases, arith, inl, inr, ltb, ltb→lt, none,
  some, subst, true, update_map, ℕ, ◌<◌, ◌==◌, ◌≡◌, ◌≤◌,
}
use red_box_db.Engine.{Engine}
use red_box_db.Engine.Erase.{is_some}
use red_box_db.Storage.Open.{Stored}
use red_box_db.Engine.Durable.{IsFile}
use red_box_db.Server.{Env, Name, SharedState, find_name, is_valid_db_name}
use red_box_db.Server.Serve.{
  forget, forgotten, left_file, left_files, left_tombstones, one, Outcome, add_database, closed,
  replied, undefined,
}
use red_box_db.Server.Catalog.{AreDistinct, erase_name-AreDistinct, find_name-erase_name}
use red_box_db.Server.Engines.{AreFiles, IsOpen}

module _ {F G : Type 0} where
  -- The catalog lists valid names once, each with a database of its own that is open, every open
  -- database is listed, and each keeps its invariant.
  pub record IsShared (s : SharedState F G) : Type 0 where
    pub distinct : AreDistinct s.catalog
    pub linked :
        (n : Name) (p : ℕ)
        → find_name n s.catalog ≡ some p
        → (is_valid_db_name n ≡ true) × (is_some (s.heap p) ≡ true)
    pub unique :
        (m n : Name) (p : ℕ)
        → find_name m s.catalog ≡ some p
        → find_name n s.catalog ≡ some p
        → m ≡ n
    pub owner : (p : ℕ) → is_some (s.heap p) ≡ true → (n : Name) × (find_name n s.catalog ≡ some p)
    pub fresh : (p : ℕ) → s.next ≤ p → s.heap p ≡ none
    pub opened : (p : ℕ) (e : Engine F G) → s.heap p ≡ some e → IsOpen e
    pub disk : AreFiles s.files

  pub below-next :
      (s : SharedState F G) (n : Name) (p : ℕ)
      → IsShared s
      → find_name n s.catalog ≡ some p
      → p < s.next
  below-next s n p h e = elim (Bool-cases (ltb p s.next)) [
    | inl below ↦ ltb→lt _ _ below
    | inr above ↦ absurd (ground (arith, h.linked n p e, h.fresh p))
  ]

  pub add_database-IsShared :
      (s : SharedState F G) (name : Name) (e : Engine F G)
      → IsShared s
      → is_valid_db_name name ≡ true
      → find_name name s.catalog ≡ none
      → IsOpen e
      → IsShared (add_database s name e)
  unfolding add_database find_name
  add_database-IsShared s name e h valid new o = record {
    distinct = (new, h.distinct);
    linked = λ n p eq. ground (arith, h.linked n p, same_name_iff name n);
    unique = λ m n p a b. ground (
      arith,
      h.unique m n p,
      same_name_iff name m,
      same_name_iff name n,
      below-next s m p h,
      below-next s n p h,
    );
    owner = λ p alive. elim (Bool-cases (s.next == p)) [
      | inl this ↦ (name, ground (arith, same_name_refl name))
      | inr other ↦
          let (n, eq) = h.owner p (ground arith) in (n, ground (arith, eq, same_name_iff name n))
    ];
    fresh = λ p le. ground (arith, h.fresh p);
    opened = λ p e' eq. elim (Bool-cases (s.next == p)) [
      | inl this ↦ subst IsOpen (ground arith) o
      | inr other ↦ h.opened p e' (ground arith)
    ];
    disk = h.disk;
  }

  -- The state after the database at p, whose name is `name`, is dropped.
  abbrev pub without : SharedState F G → ℕ → Name → SharedState F G
  without s p name = forgotten s p name none none

  pub forgotten-IsShared :
      (s : SharedState F G) (p : ℕ) (name : Name) (file : Option (Stored F))
      (tombstone_file : Option (List ℕ))
      → IsShared s
      → find_name name s.catalog ≡ some p
      → ((st : Stored F) → file ≡ some st → IsFile st.contents st.contents.dimensions)
      → IsShared (forgotten s p name file tombstone_file)
  forgotten-IsShared s p name file tombstone_file h e good =
      let found = λ (n : Name). find_name-erase_name name n s.catalog in
      record {
        distinct = erase_name-AreDistinct name s.catalog h.distinct;
        linked = λ n q eq.
            ground (arith, found n, h.linked n q, h.unique name n p e, same_name_iff name n);
        unique = λ m n q a b. ground (arith, found m, found n, h.unique m n q);
        owner = λ q alive.
            let (n, eq) = h.owner q (ground arith) in
            (n, ground (arith, found n, eq, same_name_iff name n));
        fresh = λ q le. ground (arith, h.fresh q);
        opened = λ q e' eq. h.opened q e' (ground arith);
        disk = λ n st eq. elim (Bool-cases (same_name name n)) [
          | inl this ↦ good st (ground arith)
          | inr other ↦ h.disk n st (ground arith)
        ];
      }

  -- The file that an open database leaves is a good one.
  pub left_files-IsFile :
      (s : SharedState F G) (p : ℕ) (name : Name) (st : Stored F)
      → IsShared s
      → left_files s p name ≡ some st
      → IsFile st.contents st.contents.dimensions
  unfolding left_files left_file
  left_files-IsFile s p name st h eq = elim (Option-cases (s.heap p)) [
    | inl gone ↦ h.disk name st (ground (arith, eq, gone))
    | inr (e, at) ↦
        let o = (h.opened p e at).store in
        let same : e.manager ≡ st.contents = ground (arith, eq, at) in
        subst (λ m. IsFile m m.dimensions) same
          (record {
            within = o.within;
            sized = refl;
            rows = λ i lt. ground (arith, o.rows i lt, o.sized);
          })
  ]

  -- What holds of the state whether the files could be removed or not.
  pub forget_elim :
      (P : Outcome F G → Type 0) (env : Env G) (s : SharedState F G) (p : ℕ) (name : Name)
      → P (closed (forgotten s p name (left_files s p name) (left_tombstones s p name)))
      → P (closed (forgotten s p name none (left_tombstones s p name)))
      → P (replied (without s p name) none one)
      → P (forget env s p name)
  unfolding forget
  forget_elim P env s p name a b c =
      if_elim P (not env.db_removes) _ _ (λ e. a)
        (λ e. if_elim P (not env.del_removes) _ _ (λ e. b) (λ e. c))

  -- The state after a command changed the database at p.
  pub changed-IsShared :
      (s : SharedState F G) (p : ℕ) (e e' : Engine F G)
      → IsShared s
      → s.heap p ≡ some e
      → IsOpen e'
      → IsShared (record s { heap = update_map s.heap p (some e') })
  changed-IsShared s p e e' h eq o = record {
    distinct = h.distinct;
    linked = λ n q f. ground (arith, h.linked n q);
    unique = h.unique;
    owner = λ q alive. h.owner q (ground arith);
    fresh = λ q le. ground (arith, h.fresh q);
    opened = λ q e'' f. elim (Bool-cases (p == q)) [
      | inl this ↦ subst IsOpen (ground arith) o
      | inr other ↦ h.opened q e'' (ground arith)
    ];
    disk = h.disk;
  }

  -- The shared state after a command, where it is defined.
  abbrev pub Ensures : (SharedState F G → Type 0) → Outcome F G → Type 0
  Ensures P (replied s c answer) = P s
  Ensures P (closed s) = P s
  Ensures P undefined = Unit {0}
