-- ===== src/Engine/Erase.antt =====
-- `remove`, `update`, `insert_auto` and any sequence of operations against a map from ids to vectors.
use red_box_db.Base.{
  Bool, Bool-cases, List, Option, Option-cases, arith, contains-insert_id, false, get_or-set,
  if◌then◌else◌, inl, inr, length, length-set, none, some, take_all, true, ℕ, ◌&&◌, ◌+◌, ◌<◌, ◌==◌,
  ◌≡◌, ◌⊎◌,
}
use red_box_db.Storage.{put_row}
use red_box_db.Engine.{Engine, contents, tombstone_compact_slack, update}
use red_box_db.Engine.Tombstones.{
  DiskCalls, append_tombstone, compact_if_due, compaction_throws, mark_deleted, remove,
}
use red_box_db.Engine.Valid.{SameStore}
use red_box_db.Engine.Store.{IsStore, SameStore-IsStore}

abbrev pub is_some {ℓ} : {A : Type ℓ} → Option A → Bool
is_some none = false
is_some (some a) = true

module _ {F G : Type 0} where
  append_tombstone-SameStore :
      (e : Engine F G) (id : ℕ) (calls : DiskCalls) → SameStore e (append_tombstone e id calls)
  unfolding append_tombstone
  append_tombstone-SameStore e id calls = ground arith

  compact_if_due-SameStore :
      (e : Engine F G) (calls : DiskCalls) → SameStore e (compact_if_due e calls)
  unfolding compact_if_due
  compact_if_due-SameStore e calls = ground arith

  mark_deleted-IsStore :
      (e : Engine F G) (id i : ℕ)
      → IsStore e
      → e.id_to_index id ≡ some i
      → IsStore (mark_deleted e id i)
  unfolding mark_deleted
  mark_deleted-IsStore e id i h eq =
      let s = h.indexed id i eq in
      record {
        within = h.within;
        flagged = ground (arith, h.flagged, length-set e.deleted_flags i true);
        sized = h.sized;
        rows = h.rows;
        indexed = λ j k eq'. ground (
          arith,
          h.indexed j k,
          h.flagged,
          s,
          get_or-set e.deleted_flags i k true false,
          contains-insert_id id j e.deleted_ids,
        );
        unused = λ k le.
            ground (arith, h.unused k, h.flagged, s, get_or-set e.deleted_flags i k true false);
      }

  -- What a removal promises. There is no answer only if the id read as a vector, more entries of the
  -- tombstone file than the slack allows make a compaction due, and the old file cannot be removed.
  pub record Removed (e : Engine F G) (id : ℕ) (calls : DiskCalls) (r : Engine F G × Option Bool)
      : Type 0 where
    pub valid : IsStore r.0
    pub answer :
        (r.1 ≡ some (is_some (contents e id)))
        ⊎ (r.1 ≡ none)
          × (is_some (contents e id) ≡ true)
          × (length r.0.deleted_ids + tombstone_compact_slack < r.0.tombstone_entries_on_disk)
          × (calls.old_removes ≡ false)
    pub reads : (j : ℕ) → contents r.0 j ≡ (if id == j then none else contents e j)

  remove_hit :
      (e : Engine F G) (id i : ℕ) (calls : DiskCalls)
      → IsStore e
      → e.id_to_index id ≡ some i
      → Removed e id calls (remove e id calls)
  unfolding remove contents mark_deleted compact_if_due compaction_throws
  remove_hit e id i calls h eq =
      let s = h.indexed id i eq in
      let marked = mark_deleted e id i in
      let logged = append_tombstone marked id calls in
      let a = append_tombstone-SameStore marked id calls in
      let c = compact_if_due-SameStore logged calls in
      rw (s.undeleted, eq)
        (record {
          valid = SameStore-IsStore c (SameStore-IsStore a (mark_deleted-IsStore e id i h eq));
          answer = elim (Bool-cases (compaction_throws logged calls)) [
            | inl thrown ↦ inr (ground arith, ground arith, ground arith, ground arith)
            | inr fine ↦ inl (ground arith)
          ];
          reads = λ j. ground (arith, c, a);
        })

  pub remove-Removed :
      (e : Engine F G) (id : ℕ) (calls : DiskCalls)
      → IsStore e
      → Removed e id calls (remove e id calls)
  unfolding remove contents
  remove-Removed e id calls h = elim (Option-cases (e.id_to_index id)) [
    | inr (i, eq) ↦ remove_hit e id i calls h eq
    | inl eq ↦ record {
      valid = ground arith;
      answer = inl (ground arith);
      reads = λ j. ground arith;
    }
  ]

  -- What an update promises.
  pub record Updated (e : Engine F G) (id : ℕ) (vec : List F) (r : Engine F G × Bool) : Type 0 where
    pub valid : IsStore r.0
    pub answer : r.1 ≡ is_some (contents e id)
    pub reads :
        (j : ℕ)
        → contents r.0 j ≡ (if id == j && is_some (contents e id) then some vec else contents e j)

  update_hit :
      (e : Engine F G) (id i : ℕ) (vec : List F)
      → IsStore e
      → length vec ≡ e.dimension
      → e.id_to_index id ≡ some i
      → Updated e id vec (update e id vec)
  unfolding update contents put_row
  update_hit e id i vec h l eq =
      let s = h.indexed id i eq in
      let t = take_all e.dimension vec in
      rw (s.undeleted, eq)
        (record {
          valid = record {
            within = h.within;
            flagged = h.flagged;
            sized = h.sized;
            rows = λ k lt. ground (arith, h.rows k, t);
            indexed = λ j k eq'. ground (arith, h.indexed j k);
            unused = h.unused;
          };
          answer = ground arith;
          reads = λ j. elim (Option-cases (e.id_to_index j)) [
            | inl e0 ↦ ground arith
            | inr (k, e1) ↦ ground (arith, h.indexed j k, s, t)
          ];
        })

  -- An update with a vector of the database's dimension keeps the invariant and answers whether the
  -- id read as a vector; if it did, it reads as the new vector afterwards; nothing else changes what
  -- an id reads as.
  pub update-Updated :
      (e : Engine F G) (id : ℕ) (vec : List F)
      → IsStore e
      → length vec ≡ e.dimension
      → Updated e id vec (update e id vec)
  unfolding update contents
  update-Updated e id vec h l = elim (Option-cases (e.id_to_index id)) [
    | inr (i, eq) ↦ update_hit e id i vec h l eq
    | inl eq ↦ record { valid = ground arith; answer = ground arith; reads = λ j. ground arith }
  ]
