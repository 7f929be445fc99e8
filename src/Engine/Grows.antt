-- ===== src/Engine/Grows.antt =====
-- What the operations of `RedBoxVector` (src/engine.cpp) leave alone, and by how much a file grows.
use red_box_db.Base.{
  List, Option-cases, [], arith, erase_id, false, inl, inr, ℕ, ◌++◌, ◌+◌, ◌∷◌, ◌≡◌, ◌≤◌,
}
use red_box_db.Floats.{Double, Float}
use red_box_db.Engine.{Engine, update}
use red_box_db.Storage.{next_id, put_row, write_slot}
use red_box_db.Cluster.{Draws}
use red_box_db.Graph.{GraphIndex}
use red_box_db.Engine.Insert.{find_old_slot, fresh_cluster, fresh_insert, insert, reinsert}
use red_box_db.Engine.Tombstones.{DiskCalls, remove}
use red_box_db.Engine.Valid.{index_fresh-SameStore, rejoin-SameStore}
use red_box_db.Engine.Store.{IsStore}

module _ {F G : Type 0} ⦃fl : Float F⦄ ⦃db : Double F⦄ ⦃draws : Draws F⦄
    ⦃graph : GraphIndex F G⦄ where
  -- What an operation leaves alone, and by how much it may grow the file.
  pub record Grows (e e' : Engine F G) (n : ℕ) : Type 0 where
    pub count : e'.manager.vector_count ≤ e.manager.vector_count + n
    pub capacity : e'.manager.max_capacity ≡ e.manager.max_capacity
    pub dim : e'.dimension ≡ e.dimension
    pub auto : e'.manager.next_id ≡ e.manager.next_id

  pub fresh_insert-Grows :
      (e : Engine F G) (id : ℕ) (vec : List F) → Grows e (fresh_insert e id vec) 1
  unfolding fresh_insert write_slot
  fresh_insert-Grows e id vec =
      let c = fresh_cluster e vec in
      let appended = record e {
        deleted_flags = e.deleted_flags ++ false ∷ [];
        manager = write_slot e.manager id vec c;
      } in
      ground (arith, index_fresh-SameStore appended e.manager.vector_count vec c)

  pub reinsert-Grows :
      (e : Engine F G) (id slot : ℕ) (vec : List F) → Grows e (reinsert e id vec slot) 0
  unfolding reinsert put_row
  reinsert-Grows e id slot vec =
      let written = record e { manager = put_row e.manager slot vec e.dimension } in
      ground (arith, rejoin-SameStore written slot vec)

  pub insert-Grows : (e : Engine F G) (id : ℕ) (vec : List F) → Grows e (insert e id vec) 1
  unfolding insert
  insert-Grows e id vec =
      let und = record e { deleted_ids = erase_id id e.deleted_ids } in
      elim (Option-cases
        (find_old_slot e.manager.vector_count 0 e.deleted_flags e.manager.id_block id)) [
          | inl lost ↦ ground (arith, fresh_insert-Grows e id vec, fresh_insert-Grows und id vec)
          | inr (slot, old) ↦
              ground (arith, fresh_insert-Grows e id vec, reinsert-Grows und id slot vec)
        ]

  pub remove-Grows : (e : Engine F G) (id : ℕ) (calls : DiskCalls) → Grows e (remove e id calls).0 0
  unfolding remove
  remove-Grows e id calls = ground arith

  pub update-Grows : (e : Engine F G) (id : ℕ) (vec : List F) → Grows e (update e id vec).0 0
  unfolding update put_row
  update-Grows e id vec = ground arith

  -- Taking an automatic id changes the header alone.
  unfoldable pub ticked : Engine F G → Engine F G
  unfolding next_id
  ticked e = record e { manager = (next_id e.manager).1 }

  pub ticked-IsStore : (e : Engine F G) → IsStore e → IsStore (ticked e)
  unfolding ticked
  ticked-IsStore e h = record {
    within = h.within;
    flagged = h.flagged;
    sized = h.sized;
    rows = h.rows;
    indexed = λ id i eq. ground (arith, h.indexed id i eq);
    unused = h.unused;
  }
