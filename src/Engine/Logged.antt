-- ===== src/Engine/Logged.antt =====
-- The tombstone file under removals, insertions and compaction.
use red_box_db.Base.{
  Bool, Bool-cases, List, Option-cases, [], arith, contains, contains-append, contains-insert_id,
  false, ge_of_ltb, get_or-set, inl, inr, insert_id, length, ltb, ltb→lt, none, set, some, subst,
  true, ℕ, ◌+◌, ◌<◌, ◌∙◌, ◌∷◌, ◌≡◌, ◌≢◌, ◌≤◌,
}
use red_box_db.Engine.{Engine, contents, tombstone_compact_slack}
use red_box_db.Graph.{GraphIndex, flag}
use red_box_db.Engine.Tombstones.{
  DiskCalls, append_tombstone, compact_if_due, entries_of, mark_deleted, remove,
}
use red_box_db.Engine.Store.{IsStore, Placed}
use red_box_db.Engine.Durable.{IsDurable, reopen-tombstone}
use red_box_db.Floats.{Double, Float}
use red_box_db.Cluster.{Draws}
use red_box_db.Engine.Insert.{insert}
use red_box_db.Engine.Valid.{SameDisk, insert-SameDisk}
use red_box_db.Engine.Refine.{
  fresh_insert_full, fresh_insert_room, has_old_slot, has_place, insert-Inserted, insert_undeleted,
  stored, stored-Placed,
}
use red_box_db.Engine.Open.{reopen}

-- The file system does what it is asked.
abbrev pub DiskWorks : DiskCalls → Type 0
DiskWorks c =
    (c.append_opens ≡ true)
    × (c.tmp_opens ≡ true)
    × (c.old_removes ≡ true)
    × (c.rename_works ≡ true)

module _ {F G : Type 0} where
  -- The count of the entries is that of the file, which has at most 64 more of them than there are
  -- deleted ids.
  abbrev pub IsTallied : Engine F G → Type 0
  IsTallied e =
      (e.tombstone_entries_on_disk ≡ length (entries_of e.tombstone_file))
      × (length (entries_of e.tombstone_file) ≤ length e.deleted_ids + tombstone_compact_slack)

  mark_deleted-marks :
      (e : Engine F G) (id i : ℕ)
      → IsStore e
      → IsDurable e
      → e.id_to_index id ≡ some i
      → (k : ℕ) → k < e.manager.vector_count
      → flag (set e.deleted_flags i true) k
        ≡ contains (insert_id id e.deleted_ids) (e.manager.id_block k)
  mark_deleted-marks e id i h d eq k lt = ground (
    arith,
    h.indexed id i eq,
    h.flagged,
    d.marked k lt,
    d.last k lt,
    get_or-set e.deleted_flags i k true false,
    contains-insert_id id (e.manager.id_block k) e.deleted_ids,
  )

  abbrev IsLogged : Engine F G → Type 0
  IsLogged e = (id : ℕ) → contains (entries_of e.tombstone_file) id ≡ contains e.deleted_ids id

  -- The removal of an id, once it is found.
  abbrev removed : Engine F G → ℕ → ℕ → DiskCalls → Engine F G
  removed e id i calls = compact_if_due (append_tombstone (mark_deleted e id i) id calls) calls

  removed-IsLogged :
      (e : Engine F G) (id i : ℕ) (calls : DiskCalls)
      → DiskWorks calls
      → IsLogged e
      → IsLogged (removed e id i calls)
  unfolding mark_deleted append_tombstone compact_if_due contains
  removed-IsLogged e id i calls w h j = ground (
    arith,
    h j,
    contains-append (entries_of e.tombstone_file) (id ∷ []) j,
    contains-insert_id id j e.deleted_ids,
  )

  removed-IsDurable :
      (e : Engine F G) (id i : ℕ) (calls : DiskCalls)
      → DiskWorks calls
      → IsStore e
      → IsDurable e
      → e.id_to_index id ≡ some i
      → IsDurable (removed e id i calls)
  unfolding mark_deleted append_tombstone compact_if_due
  removed-IsDurable e id i calls w h d eq =
      let n = removed-IsLogged e id i calls w d.logged in
      record {
        logged = n;
        marked = λ k lt. ground (arith, mark_deleted-marks e id i h d eq k);
        last = λ k lt f. ground (
          arith,
          d.last k,
          h.flagged,
          h.indexed id i eq,
          get_or-set e.deleted_flags i k true false,
        );
      }

  -- A removal that the disk takes keeps the files in step with the memory, so that the removed id
  -- stays removed after a restart and no other is lost.
  pub remove-IsDurable :
      (e : Engine F G) (id : ℕ) (calls : DiskCalls)
      → DiskWorks calls
      → IsStore e
      → IsDurable e
      → IsDurable (remove e id calls).0
  unfolding remove
  remove-IsDurable e id calls w h d = elim (Option-cases (e.id_to_index id)) [
    | inl e0 ↦ ground arith
    | inr (i, e1) ↦ ground (arith, removed-IsDurable e id i calls w h d e1, h.indexed id i e1)
  ]

module _ {F G : Type 0} ⦃fl : Float F⦄ ⦃db : Double F⦄ ⦃draws : Draws F⦄
    ⦃graph : GraphIndex F G⦄ where
  Placed-IsDurable :
      (e e' : Engine F G) (id slot : ℕ) (vec : List F)
      → e.manager.vector_count ≤ slot
      → contains e.deleted_ids id ≡ false
      → ((i : ℕ) → i < e.manager.vector_count → e.manager.id_block i ≢ id)
      → SameDisk e e'
      → IsDurable e
      → Placed e e' id slot vec
      → IsDurable e'
  Placed-IsDurable e e' id slot vec le kept new disk d p = record {
    logged = λ j. ground (arith, d.logged j, disk, p.deleted);
    marked = λ i lt. ground (arith, p.only i lt, p.flags i, p.ids i, d.marked i, p.deleted);
    last = λ i lt f.
        ground (
          arith,
          p.only i lt,
          p.flags i,
          p.ids i,
          d.last i,
          new i,
          p.index (e'.manager.id_block i),
        );
  }

  -- The insertion of an id that no slot has held keeps the files in step with the memory, so that
  -- its vector and all others are there after a restart.
  pub insert-IsDurable :
      (e : Engine F G) (id : ℕ) (vec : List F)
      → IsStore e
      → IsDurable e
      → length vec ≡ e.dimension
      → contains e.deleted_ids id ≡ false
      → ((i : ℕ) → i < e.manager.vector_count → e.manager.id_block i ≢ id)
      → IsDurable (insert e id vec)
  insert-IsDurable e id vec h d l kept new =
      let eqs = insert_undeleted e id vec kept in
      elim (Bool-cases (ltb e.manager.vector_count e.manager.max_capacity)) [
        | inl room ↦
            let lt = ltb→lt _ _ room in
            let same = eqs.0 ∙ fresh_insert_room e id vec h l lt in
            let disk = subst (SameDisk e) same (insert-SameDisk e id vec) in
            rw same (
              Placed-IsDurable e (stored e id vec) id e.manager.vector_count vec (omega arith) kept
                new disk d (stored-Placed e id vec h l lt))
        | inr full ↦ rw (eqs.0, fresh_insert_full e id vec (ge_of_ltb _ _ full)) d
      ]

  -- A deleted id that is inserted again reads as its new vector; but its tombstone stays in the
  -- file, so after a restart it reads as nothing.
  pub reinsert_forgotten :
      (e : Engine F G) (id : ℕ) (vec : List F) (k : ℕ) (use_avx2 : Bool) (g : G)
      → IsStore e
      → length vec ≡ e.dimension
      → has_old_slot e id ≡ true
      → contains (entries_of e.tombstone_file) id ≡ true
      → let e' = insert e id vec in
        (contents e' id ≡ some vec)
        × (contents (reopen e'.manager e'.tombstone_file e'.dimension k use_avx2 g) id ≡ none)
  reinsert_forgotten e id vec k use_avx2 g h l old logged =
      let e' = insert e id vec in
      let r = insert-Inserted e id vec h l in
      let placed : has_place e id ≡ true = ground arith in
      (
        ground (arith, r.reads id, placed),
        reopen-tombstone e'.manager e'.tombstone_file e'.dimension k use_avx2 g id
            (ground (arith, insert-SameDisk e id vec)),
      )
