-- ===== src/Engine/Durable.antt =====
-- What a restart keeps: the constructors rebuild the containers from the file and the tombstones.
use red_box_db.Base.{
  Bool, Bool-cases, List, Option, Option-cases, [], arith, contains, contains-insert_id, false,
  for_range_inv, get_or-replicate, get_or-set, if_elim, if◌then◌else◌, inl, inr, insert_id, length,
  length-replicate, length-set, ltb, none, refl, some, suc, true, ℕ, ◌+◌, ◌<◌, ◌==◌, ◌||◌, ◌∙◌, ◌∷◌,
  ◌≡◌, ◌≤◌,
}
use red_box_db.Storage.{Manager}
use red_box_db.Graph.{flag}
use red_box_db.Engine.Tombstones.{entries_of, load_tombstones, read_entries}
use red_box_db.Engine.Open.{
  Loaded, bare, load_slot, load_slots, open_hnsw, open_ivf, reopen, with_slots,
}
use red_box_db.Engine.{Engine, contents}
use red_box_db.Engine.Store.{IsStore}
use red_box_db.Metadata.{is_hnsw}

-- Reading the entries gives the set of them, and their number.
read_entries_lem :
    (xs ids : List ℕ) (n id : ℕ)
    → (contains (read_entries xs ids n).0 id ≡ (contains ids id || contains xs id))
      × ((read_entries xs ids n).1 ≡ n + length xs)
unfolding read_entries contains
read_entries_lem [] ids n id = (ground arith, omega arith)
read_entries_lem (x ∷ xs) ids n id =
    let r = read_entries_lem xs (insert_id x ids) (n + 1) id in
    (ground (arith, r.0, contains-insert_id x id ids), omega (arith, r.1))

module _ {F : Type 0} (m : Manager F) (deleted : List ℕ) where
  abbrev is_deleted : ℕ → Bool
  is_deleted i = contains deleted (m.id_block i)

  -- After the slots below i.
  pub record IsLoaded (i : ℕ) (s : Loaded) : Type 0 where
    pub sized : length s.flags ≡ m.vector_count
    pub flags : (j : ℕ) → flag s.flags j ≡ (if ltb j i then is_deleted j else false)
    pub sound :
        (id j : ℕ)
        → s.index id ≡ some j
        → (j < i) × (m.id_block j ≡ id) × (contains deleted id ≡ false)
    pub complete :
        (j : ℕ)
        → j < i
        → is_deleted j ≡ false
        → (k : ℕ) × (j ≤ k) × (s.index (m.id_block j) ≡ some k)

  load_slot-IsLoaded :
      (k i : ℕ) (s : Loaded)
      → i < m.vector_count
      → IsLoaded i s
      → IsLoaded (suc i) (load_slot m deleted k i s)
  unfolding load_slot
  load_slot-IsLoaded k i s lt h = elim (Bool-cases (is_deleted i)) [
    | inl gone ↦ rw gone (record {
      sized = length-set s.flags i true ∙ h.sized;
      flags = λ j. ground (arith, h.flags j, h.sized, get_or-set s.flags i j true false);
      sound = λ id j e. ground (arith, h.sound id j e);
      complete = λ j lt' d. h.complete j (ground arith) d;
    })
    | inr kept ↦ rw kept (record {
      sized = h.sized;
      flags = λ j. ground (arith, h.flags j);
      sound = λ id j e. ground (arith, h.sound id j);
      complete = λ j lt' d. elim (Bool-cases (m.id_block i == m.id_block j)) [
        | inl same ↦ (i, ground arith, ground arith)
        | inr other ↦ let (l, le, e) = h.complete j (ground arith) d in (l, le, ground arith)
      ];
    })
  ]

  load_slots-IsLoaded : (k : ℕ) → IsLoaded m.vector_count (load_slots m deleted k)
  unfolding load_slots
  load_slots-IsLoaded k =
      for_range_inv IsLoaded (load_slot m deleted k) m.vector_count _
        (λ i s lt h. load_slot-IsLoaded k i s lt h)
        (record {
          sized = length-replicate m.vector_count false;
          flags = λ j. ground (arith, get_or-replicate m.vector_count j false);
          sound = λ id j e. absurd (cc);
          complete = λ j lt d. absurd (omega arith);
        })

-- A file that can be attached: within its capacity, and each row of the dimension.
pub record IsFile {F : Type 0} (m : Manager F) (dim : ℕ) : Type 0 where
  pub within : m.vector_count ≤ m.max_capacity
  pub sized : m.dimensions ≡ dim
  pub rows : (i : ℕ) → i < m.vector_count → length (m.float_block i) ≡ dim

module _ {F G : Type 0} where
  record IsBase (m : Manager F) (file : Option (List ℕ)) (dim : ℕ) (e : Engine F G) : Type 0 where
    mapped : e.manager ≡ m
    sized : e.dimension ≡ dim
    deleted : (id : ℕ) → contains e.deleted_ids id ≡ contains (entries_of file) id

  load_tombstones-IsBase :
      (m : Manager F) (file : Option (List ℕ)) (dim : ℕ) (use_avx2 : Bool) (g : G)
      → IsBase m file dim (load_tombstones (bare m file dim use_avx2 g))
  unfolding load_tombstones
  load_tombstones-IsBase m none dim use_avx2 g = record {
    mapped = refl;
    sized = refl;
    deleted = λ id. refl;
  }
  load_tombstones-IsBase m (some xs) dim use_avx2 g = record {
    mapped = refl;
    sized = refl;
    deleted = λ id. (read_entries_lem xs [] 0 id).0;
  }

  with_slots-IsStore :
      (e : Engine F G) (k : ℕ) → IsFile e.manager e.dimension → IsStore (with_slots e k)
  with_slots-IsStore e k f =
      let h = load_slots-IsLoaded e.manager e.deleted_ids k in
      record {
        within = f.within;
        flagged = omega (arith, h.sized);
        sized = f.sized;
        rows = f.rows;
        indexed = λ id i eq. ground (arith, h.sound id i eq, h.flags i);
        unused = λ i le. ground (arith, h.flags i);
      }

  -- A deleted id reads as nothing.
  with_slots-deleted :
      (e : Engine F G) (k id : ℕ)
      → contains e.deleted_ids id ≡ true
      → contents (with_slots e k) id ≡ none
  unfolding contents
  with_slots-deleted e k id d =
      let s = load_slots e.manager e.deleted_ids k in
      let h = load_slots-IsLoaded e.manager e.deleted_ids k in
      elim (Option-cases (s.index id)) [
        | inl e0 ↦ rw (e0, contents)
        | inr (j, e1) ↦ absurd (ground (arith, h.sound id j e1))
      ]

  -- The flags and the index say the same as the ids and the tombstone file: no deleted id has been
  -- inserted again, and no slot has the id of a later one.
  pub record IsDurable (e : Engine F G) : Type 0 where
    pub logged : (id : ℕ) → contains (entries_of e.tombstone_file) id ≡ contains e.deleted_ids id
    pub marked :
        (i : ℕ)
        → i < e.manager.vector_count
        → flag e.deleted_flags i ≡ contains e.deleted_ids (e.manager.id_block i)
    pub last :
        (i : ℕ)
        → i < e.manager.vector_count
        → flag e.deleted_flags i ≡ false
        → e.id_to_index (e.manager.id_block i) ≡ some i

  with_slots-index :
      (e b : Engine F G) (k id : ℕ)
      → IsStore e
      → IsDurable e
      → IsBase e.manager e.tombstone_file e.dimension b
      → (with_slots b k).id_to_index id ≡ e.id_to_index id
  with_slots-index e b k id h d base =
      let s = load_slots b.manager b.deleted_ids k in
      let l = load_slots-IsLoaded b.manager b.deleted_ids k in
      elim (Option-cases (e.id_to_index id)) [
        | inl e0 ↦ elim (Option-cases (s.index id)) [
          | inl e1 ↦ rw (e0, e1)
          | inr (j, e1) ↦ absurd (
              ground (
                arith,
                l.sound id j e1,
                base.mapped,
                base.deleted id,
                d.logged id,
                d.marked j,
                d.last j,
              ))
        ]
        | inr (i, e1) ↦
            let held = h.indexed id i e1 in
            let (j, le, e2) =
              l.complete i (ground (arith, held, base.mapped))
                (ground (arith, held, base.mapped, base.deleted id, d.logged id)) in
            ground (
              arith,
              held,
              l.sound (b.manager.id_block i) j e2,
              base.mapped,
              base.deleted id,
              d.logged id,
              d.marked j,
              d.last j,
            )
      ]

  with_slots-contents :
      (e b : Engine F G) (k id : ℕ)
      → IsStore e
      → IsDurable e
      → IsBase e.manager e.tombstone_file e.dimension b
      → contents (with_slots b k) id ≡ contents e id
  unfolding contents
  with_slots-contents e b k id h d base =
      ground (arith, with_slots-index e b k id h d base, base.mapped)

module _ {F G : Type 0} where
  -- Opening a file whose ids and tombstones agree with a database in memory gives back that
  -- database's vectors, under either constructor.
  pub contents-reopen :
      (e : Engine F G) (k : ℕ) (use_avx2 : Bool) (g : G) (id : ℕ)
      → IsStore e
      → IsDurable e
      → contents (reopen e.manager e.tombstone_file e.dimension k use_avx2 g) id ≡ contents e id
  unfolding reopen
  contents-reopen e k use_avx2 g id h d =
      let file = e.tombstone_file in
      let b = load_tombstones (bare e.manager file e.dimension use_avx2 g) in
      let base = load_tombstones-IsBase e.manager file e.dimension use_avx2 g in
      elim (Bool-cases (is_hnsw e.manager.index_type)) [
        | inl graph ↦ rw graph (with_slots-contents e b 0 id h d base)
        | inr clusters ↦ rw clusters (with_slots-contents e b _ id h d base)
      ]

  loaded-IsStore :
      (m : Manager F) (file : Option (List ℕ)) (dim k : ℕ) (use_avx2 : Bool) (g : G)
      → IsFile m dim
      → IsStore (with_slots (load_tombstones (bare m file dim use_avx2 g)) k)
  loaded-IsStore m file dim k use_avx2 g f =
      let b = load_tombstones (bare m file dim use_avx2 g) in
      let base = load_tombstones-IsBase m file dim use_avx2 g in
      with_slots-IsStore b k (rw (base.mapped, base.sized) f)

  pub open_ivf-IsStore :
      (m : Manager F) (file : Option (List ℕ)) (dim k : ℕ) (use_avx2 : Bool) (g : G)
      → IsFile m dim
      → IsStore (open_ivf m file dim k use_avx2 g)
  unfolding open_ivf
  open_ivf-IsStore m file dim k use_avx2 g f = loaded-IsStore m file dim _ use_avx2 g f

  pub open_hnsw-IsStore :
      (m : Manager F) (file : Option (List ℕ)) (dim : ℕ) (use_avx2 : Bool) (g : G)
      → IsFile m dim
      → IsStore (open_hnsw m file dim use_avx2 g)
  unfolding open_hnsw
  open_hnsw-IsStore m file dim use_avx2 g f = loaded-IsStore m file dim 0 use_avx2 g f

  -- The engine of either constructor has the dimension of the request.
  pub open_ivf-dimension :
      (m : Manager F) (file : Option (List ℕ)) (dim k : ℕ) (use_avx2 : Bool) (g : G)
      → (open_ivf m file dim k use_avx2 g).dimension ≡ dim
  unfolding open_ivf
  open_ivf-dimension m file dim k use_avx2 g = (load_tombstones-IsBase m file dim use_avx2 g).sized

  pub open_hnsw-dimension :
      (m : Manager F) (file : Option (List ℕ)) (dim : ℕ) (use_avx2 : Bool) (g : G)
      → (open_hnsw m file dim use_avx2 g).dimension ≡ dim
  unfolding open_hnsw
  open_hnsw-dimension m file dim use_avx2 g = (load_tombstones-IsBase m file dim use_avx2 g).sized

  -- Either constructor sets up the invariant.
  pub reopen-IsStore :
      (m : Manager F) (file : Option (List ℕ)) (dim k : ℕ) (use_avx2 : Bool) (g : G)
      → IsFile m dim
      → IsStore (reopen m file dim k use_avx2 g)
  unfolding reopen
  reopen-IsStore m file dim k use_avx2 g f =
      if_elim IsStore (is_hnsw m.index_type) _ _
        (λ graph. open_hnsw-IsStore m file dim use_avx2 g f)
        (λ clusters. open_ivf-IsStore m file dim k use_avx2 g f)

  -- An id that stands in the tombstone file reads as nothing after either constructor.
  pub reopen-tombstone :
      (m : Manager F) (file : Option (List ℕ)) (dim k : ℕ) (use_avx2 : Bool) (g : G) (id : ℕ)
      → contains (entries_of file) id ≡ true
      → contents (reopen m file dim k use_avx2 g) id ≡ none
  unfolding reopen
  reopen-tombstone m file dim k use_avx2 g id d =
      let b = load_tombstones (bare m file dim use_avx2 g) in
      let base = load_tombstones-IsBase m file dim use_avx2 g in
      let d' = base.deleted id ∙ d in
      elim (Bool-cases (is_hnsw m.index_type)) [
        | inl graph ↦ rw graph (with_slots-deleted b 0 id d')
        | inr clusters ↦ rw clusters (with_slots-deleted b _ id d')
      ]
