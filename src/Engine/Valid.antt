-- ===== src/Engine/Valid.antt =====
-- The invariant of a database in memory, and that every operation keeps it.
use red_box_db.Base.{List, arith, ℕ, ◌≡◌}
use red_box_db.Floats.{Double, Float}
use red_box_db.Cluster.{Draws}
use red_box_db.Graph.{GraphIndex, SameRows}
use red_box_db.Engine.{Engine}
use red_box_db.Engine.Insert.{index_fresh, insert, join_graph, rejoin}

module _ {F G : Type 0} where
  -- All but the indexes over the vectors is as it was.
  pub record SameStore (e e' : Engine F G) : Type 0 where
    pub rows : SameRows e.manager e'.manager
    pub dim : e'.dimension ≡ e.dimension
    pub flags : e'.deleted_flags ≡ e.deleted_flags
    pub index : e'.id_to_index ≡ e.id_to_index
    pub deleted : e'.deleted_ids ≡ e.deleted_ids

  -- The tombstone file and the count of its entries are as they were.
  pub record SameDisk (e e' : Engine F G) : Type 0 where
    pub file : e'.tombstone_file ≡ e.tombstone_file
    pub entries : e'.tombstone_entries_on_disk ≡ e.tombstone_entries_on_disk

module _ {F G : Type 0} ⦃fl : Float F⦄ ⦃db : Double F⦄ ⦃draws : Draws F⦄
    ⦃graph : GraphIndex F G⦄ where
  pub join_graph-SameStore :
      (e : Engine F G) (slot : ℕ) (vec : List F) → SameStore e (join_graph e slot vec)
  unfolding join_graph
  join_graph-SameStore e slot vec = ground (
    arith,
    graph.insert-SameRows slot vec e.manager e.dimension e.use_avx2 e.deleted_flags e.graph,
  )

  pub rejoin-SameStore :
      (e : Engine F G) (slot : ℕ) (vec : List F) → SameStore e (rejoin e slot vec)
  unfolding rejoin
  rejoin-SameStore e slot vec = ground (arith, join_graph-SameStore e slot vec)

  pub index_fresh-SameStore :
      (e : Engine F G) (slot : ℕ) (vec : List F) (c : ℕ) → SameStore e (index_fresh e slot vec c)
  unfolding index_fresh
  index_fresh-SameStore e slot vec c = ground (arith, join_graph-SameStore e slot vec)

  pub insert-SameDisk : (e : Engine F G) (id : ℕ) (vec : List F) → SameDisk e (insert e id vec)
  unfolding insert
  insert-SameDisk e id vec = ground arith
