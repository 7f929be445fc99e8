-- ===== src/Engine/Refine.antt =====
-- The operations against a map from ids to vectors.
use red_box_db.Base.{
  Bool, Bool-cases, List, Option, Option-cases, [], arith, contains, contains-erase_id, erase_id,
  false, ge_of_ltb, get_or-append_default, get_or-set, if◌then◌else◌, inl, inr, length,
  length-append, length-set, ltb, ltb→lt, none, some, take_all, true, update_map, ℕ, ◌&&◌, ◌++◌,
  ◌<◌, ◌==◌, ◌||◌, ◌∷◌, ◌≡◌, ◌≤◌,
}
use red_box_db.Floats.{Double, Float}
use red_box_db.Storage.{put_row, write_slot}
use red_box_db.Cluster.{Draws}
use red_box_db.Graph.{GraphIndex}
use red_box_db.Engine.{Engine, contents}
use red_box_db.Engine.Insert.{
  find_old_slot, fresh_cluster, fresh_insert, index_fresh, insert, reinsert, rejoin,
}
use red_box_db.Engine.Valid.{index_fresh-SameStore, rejoin-SameStore}
use red_box_db.Engine.Store.{
  IsFree, IsStore, Placed, Placed-IsStore, contents-Placed, find_old_slot-found, undelete-IsStore,
}

-- Whether a deleted slot still holds the id.
abbrev pub has_old_slot : {F G : Type 0} → Engine F G → ℕ → Bool
has_old_slot e id =
    contains e.deleted_ids id
    && elim (find_old_slot e.manager.vector_count 0 e.deleted_flags e.manager.id_block id) [
      | none ↦ false
      | some i ↦ true
    ]

-- Whether an insertion has a place: a slot that is still free, or the old slot of a deleted id.
abbrev pub has_place : {F G : Type 0} → Engine F G → ℕ → Bool
has_place e id = ltb e.manager.vector_count e.manager.max_capacity || has_old_slot e id

module _ {F G : Type 0} ⦃fl : Float F⦄ ⦃db : Double F⦄ ⦃draws : Draws F⦄
    ⦃graph : GraphIndex F G⦄ where
  reinsert-Placed :
      (e : Engine F G) (id slot : ℕ) (vec : List F)
      → IsStore e
      → slot < e.manager.vector_count
      → e.manager.id_block slot ≡ id
      → length vec ≡ e.dimension
      → Placed e (reinsert e id vec slot) id slot vec
  unfolding reinsert
  reinsert-Placed e id slot vec h lt named l =
      let written = record e { manager = put_row e.manager slot vec e.dimension } in
      let s = rejoin-SameStore written slot vec in
      let t = take_all e.dimension vec in
      record {
        count = ground (arith, s);
        bounded = ground (arith, s, h);
        room = ground (arith, s, h, length-set (rejoin written slot vec).deleted_flags slot false);
        new = ground (arith, s);
        only = λ i lt'. inl (ground (arith, s));
        dims = ground (arith, s);
        dim = ground (arith, s);
        row = λ i. ground (arith, s, t);
        ids = λ i. ground (arith, s);
        flags = λ i.
            ground
              (arith, s, h, get_or-set (rejoin written slot vec).deleted_flags slot i false false);
        index = λ j. ground (arith, s);
        deleted = ground (arith, s);
      }

  -- What `add_vector` and the pushed flag leave, before the vector is indexed.
  abbrev appended : Engine F G → ℕ → List F → ℕ → Engine F G
  appended e id vec c = record e {
    deleted_flags = e.deleted_flags ++ false ∷ [];
    manager = write_slot e.manager id vec c;
  }

  pub stored : Engine F G → ℕ → List F → Engine F G
  stored e id vec =
      let slot = e.manager.vector_count in
      let c = fresh_cluster e vec in
      let indexed = index_fresh (appended e id vec c) slot vec c in
      record indexed { id_to_index = update_map indexed.id_to_index id (some slot) }

  pub fresh_insert_room :
      (e : Engine F G) (id : ℕ) (vec : List F)
      → IsStore e
      → length vec ≡ e.dimension
      → e.manager.vector_count < e.manager.max_capacity
      → fresh_insert e id vec ≡ stored e id vec
  unfolding fresh_insert stored
  fresh_insert_room e id vec h l lt = ground (arith, h.sized)

  pub fresh_insert_full :
      (e : Engine F G) (id : ℕ) (vec : List F)
      → e.manager.max_capacity ≤ e.manager.vector_count
      → fresh_insert e id vec ≡ e
  unfolding fresh_insert
  fresh_insert_full e id vec le = ground arith

  pub stored-Placed :
      (e : Engine F G) (id : ℕ) (vec : List F)
      → IsStore e
      → length vec ≡ e.dimension
      → e.manager.vector_count < e.manager.max_capacity
      → Placed e (stored e id vec) id e.manager.vector_count vec
  unfolding stored write_slot
  stored-Placed e id vec h l room =
      let slot = e.manager.vector_count in
      let c = fresh_cluster e vec in
      let s = index_fresh-SameStore (appended e id vec c) slot vec c in
      let n = length-append e.deleted_flags (false ∷ []) in
      record {
        count = ground (arith, s);
        bounded = ground (arith, s, h);
        room = ground (arith, s, h, n);
        new = ground (arith, s);
        only = λ i lt'. ground (arith, s);
        dims = ground (arith, s);
        dim = ground (arith, s);
        row = λ i. ground (arith, s, take_all e.manager.dimensions vec, h.sized);
        ids = λ i. ground (arith, s);
        flags =
            λ i. ground (arith, s, get_or-append_default e.deleted_flags i false, h.unused slot);
        index = λ j. ground (arith, s);
        deleted = ground (arith, s);
      }

  abbrev put_if : Bool → Engine F G → ℕ → List F → ℕ → Option (List F)
  put_if placed e id vec j =
      if id == j then (if placed then some vec else contents e j) else contents e j

  -- The invariant, and the map with the vector put under the id if `placed`.
  pub record Inserted (e e' : Engine F G) (id : ℕ) (vec : List F) (placed : Bool) : Type 0 where
    pub valid : IsStore e'
    pub reads : (j : ℕ) → contents e' j ≡ put_if placed e id vec j

  placed_lem :
      (e e' : Engine F G) (id slot : ℕ) (vec : List F)
      → IsStore e
      → IsFree e id slot
      → contains e.deleted_ids id ≡ false
      → length vec ≡ e.dimension
      → Placed e e' id slot vec
      → Inserted e e' id vec true
  placed_lem e e' id slot vec h f d l p = record {
    valid = Placed-IsStore e e' id slot vec h f d l p;
    reads = contents-Placed e e' id slot vec h f p;
  }

  fresh_insert_lem :
      (e : Engine F G) (id : ℕ) (vec : List F)
      → IsStore e
      → contains e.deleted_ids id ≡ false
      → length vec ≡ e.dimension
      → Inserted e
          (fresh_insert e id vec)
          id
          vec
          (ltb e.manager.vector_count e.manager.max_capacity)
  fresh_insert_lem e id vec h d l =
      elim (Bool-cases (ltb e.manager.vector_count e.manager.max_capacity)) [
        | inl room ↦
            let lt = ltb→lt _ _ room in
            rw (fresh_insert_room e id vec h l lt, room)
              (placed_lem e (stored e id vec) id e.manager.vector_count vec h (inl (omega arith)) d
                l (stored-Placed e id vec h l lt))
        | inr full ↦
            rw (fresh_insert_full e id vec (ge_of_ltb _ _ full), full)
              (record { valid = h; reads = λ j. ground arith })
      ]

  module _ (e : Engine F G) (id : ℕ) (vec : List F) where
    undeleted : Engine F G
    undeleted = record e { deleted_ids = erase_id id e.deleted_ids }

    abbrev old_slot : Option ℕ
    old_slot = find_old_slot e.manager.vector_count 0 e.deleted_flags e.manager.id_block id

    pub insert_undeleted :
        contains e.deleted_ids id ≡ false
        → (insert e id vec ≡ fresh_insert e id vec)
          × (has_place e id ≡ ltb e.manager.vector_count e.manager.max_capacity)
    unfolding insert
    insert_undeleted kept = (rw kept, ground arith)

    insert_lost :
        contains e.deleted_ids id ≡ true
        → old_slot ≡ none
        → (insert e id vec ≡ fresh_insert undeleted id vec)
          × (has_place e id ≡ ltb e.manager.vector_count e.manager.max_capacity)
    unfolding insert undeleted
    insert_lost deleted lost = (rw (deleted, lost), ground arith)

    insert_old :
        (slot : ℕ)
        → contains e.deleted_ids id ≡ true
        → old_slot ≡ some slot
        → (insert e id vec ≡ reinsert undeleted id vec slot) × (has_place e id ≡ true)
    unfolding insert undeleted
    insert_old slot deleted old = (rw (deleted, old), ground arith)

    insert_lost_lem :
        IsStore e
        → length vec ≡ e.dimension
        → contains e.deleted_ids id ≡ true
        → old_slot ≡ none
        → Inserted e (insert e id vec) id vec (has_place e id)
    unfolding undeleted contents
    insert_lost_lem h l deleted lost =
        let eqs = insert_lost deleted lost in
        let gone = contains-erase_id id id e.deleted_ids in
        let r =
          fresh_insert_lem undeleted id vec (undelete-IsStore e id h) (ground (arith, gone)) l in
        rw (eqs.0, eqs.1) (record { valid = r.valid; reads = r.reads })

    insert_old_lem :
        (slot : ℕ)
        → IsStore e
        → length vec ≡ e.dimension
        → contains e.deleted_ids id ≡ true
        → old_slot ≡ some slot
        → Inserted e (insert e id vec) id vec (has_place e id)
    unfolding undeleted contents
    insert_old_lem slot h l deleted old =
        let eqs = insert_old slot deleted old in
        let gone = contains-erase_id id id e.deleted_ids in
        let (lt, flagged, named) =
          find_old_slot-found e.manager.vector_count 0 e.deleted_flags e.manager.id_block id slot
            old in
        let hu = undelete-IsStore e id h in
        let r =
          placed_lem undeleted (reinsert undeleted id vec slot) id slot vec hu
            (inr (flagged, named)) (ground (arith, gone)) l
            (reinsert-Placed undeleted id slot vec hu (omega arith) named l) in
        rw (eqs.0, eqs.1) (record { valid = r.valid; reads = r.reads })

  -- Insertion of a vector of the database's dimension keeps the invariant. If there is a place, the
  -- id reads as the vector afterwards, otherwise as before; every other id reads as before.
  pub insert-Inserted :
      (e : Engine F G) (id : ℕ) (vec : List F)
      → IsStore e
      → length vec ≡ e.dimension
      → Inserted e (insert e id vec) id vec (has_place e id)
  insert-Inserted e id vec h l = elim (Bool-cases (contains e.deleted_ids id)) [
    | inr kept ↦
        let eqs = insert_undeleted e id vec kept in
        rw (eqs.0, eqs.1) (fresh_insert_lem e id vec h kept l)
    | inl deleted ↦ elim (Option-cases (old_slot e id vec)) [
      | inl lost ↦ insert_lost_lem e id vec h l deleted lost
      | inr (slot, old) ↦ insert_old_lem e id vec slot h l deleted old
    ]
  ]
