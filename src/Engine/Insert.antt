-- ===== src/Engine/Insert.antt =====
-- `RedBoxVector::insert` and `insert_auto`. Where the source calls a getter or a setter of the
-- manager with a slot below the count, the bound test passes, and the block is read or written here.
use red_box_db.Base.{
  Bool, List, Option, [], contains, erase_id, false, for_range, if◌then◌else◌, leb, ltb, none, set,
  some, suc, true, update_map, zero, ℕ, ◌&&◌, ◌++◌, ◌+◌, ◌==◌, ◌∷◌,
}
use red_box_db.Floats.{Float, Double}
use red_box_db.Metadata.{is_hnsw}
use red_box_db.Storage.{add_vector, next_id, ok, put_cluster, put_row, throw}
use red_box_db.Cluster.{
  Clusters, Draws, find_nearest_centroid, kmeans_plus_plus_init, update_centroid,
}
use red_box_db.Graph.{GraphIndex, flag}
use red_box_db.Engine.{Engine, kmeans_init_threshold}

-- The first deleted slot that holds the id, among the `rounds` slots from i.
unfoldable pub find_old_slot : ℕ → ℕ → List Bool → (ℕ → ℕ) → ℕ → Option ℕ
find_old_slot zero i flags ids id = none
find_old_slot (suc rounds) i flags ids id =
    let rest = find_old_slot rounds (i + 1) flags ids id in
    if flag flags i && (ids i == id) then some i else rest

-- `cluster_index[c].push_back(slot)`
abbrev pub push_slot : (ℕ → List ℕ) → ℕ → ℕ → ℕ → List ℕ
push_slot index c slot = update_map index c (index c ++ slot ∷ [])

-- One round of the loop that fills the cluster index from the cluster block.
unfoldable pub index_slot : List Bool → (ℕ → ℕ) → ℕ → ℕ → (ℕ → List ℕ) → ℕ → List ℕ
index_slot flags clusters k i index =
    if flag flags i
    then index
    else if ltb (clusters i) k
    then push_slot index (clusters i) i
    else index

unfoldable pub rebuild_index : List Bool → (ℕ → ℕ) → ℕ → ℕ → ℕ → List ℕ
unfolding index_slot for_range
rebuild_index flags clusters k n = for_range n 0 (index_slot flags clusters k) (λ _. [])

module _ {F G : Type 0} ⦃fl : Float F⦄ ⦃db : Double F⦄ ⦃draws : Draws F⦄
    ⦃graph : GraphIndex F G⦄ where
  -- The cluster that an initialised IVF index gives a vector.
  unfoldable pub nearest_cluster : Engine F G → List F → ℕ
  unfolding find_nearest_centroid
  nearest_cluster e vec =
      find_nearest_centroid vec e.manager.centroid_block e.manager.num_clusters e.dimension
        e.use_avx2

  -- `update_centroid`, and the slot joins the list of its cluster.
  unfoldable pub join_cluster : Engine F G → ℕ → ℕ → List F → Engine F G
  unfolding update_centroid
  join_cluster e slot c vec =
      let (centroids, counts) =
        update_centroid e.manager.centroid_block e.manager.cluster_count_block c vec e.dimension in
      record e {
        manager = record e.manager { centroid_block = centroids; cluster_count_block = counts };
        cluster_index = push_slot e.cluster_index c slot;
      }

  -- A slot joins the HNSW graph.
  unfoldable pub join_graph : Engine F G → ℕ → List F → Engine F G
  join_graph e slot vec =
      let (m, g) = graph.insert slot vec e.manager e.dimension e.use_avx2 e.deleted_flags e.graph in
      record e { manager = m; graph = g }

  -- The index part of a re-insertion.
  unfoldable pub rejoin : Engine F G → ℕ → List F → Engine F G
  unfolding join_cluster join_graph nearest_cluster put_cluster is_hnsw
  rejoin e slot vec =
      if is_hnsw e.manager.index_type
      then join_graph e slot vec
      else if e.manager.is_initialized
      then (let c = nearest_cluster e vec in
          let joined = join_cluster e slot c vec in
          record joined { manager = put_cluster joined.manager slot c })
      else record e { manager = put_cluster e.manager slot 0 }

  -- Re-insertion of a deleted id into its old slot.
  unfoldable pub reinsert : Engine F G → ℕ → List F → ℕ → Engine F G
  unfolding rejoin put_row
  reinsert e id vec slot =
      let joined =
        rejoin (record e { manager = put_row e.manager slot vec e.dimension }) slot vec in
      record joined {
        deleted_flags = set joined.deleted_flags slot false;
        id_to_index = update_map joined.id_to_index id (some slot);
      }

  -- K-means++ over the slots in use, and the cluster index filled anew.
  unfoldable pub init_clusters : Engine F G → ℕ → Engine F G
  unfolding kmeans_plus_plus_init rebuild_index
  init_clusters e n =
      let m = e.manager in
      let b : Clusters F = record {
        centroid_block = m.centroid_block;
        cluster_count_block = m.cluster_count_block;
        cluster_block = m.cluster_block;
      } in
      let b' = kmeans_plus_plus_init b m.float_block m.num_clusters n e.dimension e.use_avx2 in
      record e {
        manager = record m {
          header = record m.header { is_initialized = true };
          centroid_block = b'.centroid_block;
          cluster_count_block = b'.cluster_count_block;
          cluster_block = b'.cluster_block;
        };
        cluster_index = rebuild_index e.deleted_flags b'.cluster_block m.num_clusters n;
      }

  -- The index part of a fresh insertion, after `add_vector` has put the vector at `slot`.
  unfoldable pub index_fresh : Engine F G → ℕ → List F → ℕ → Engine F G
  unfolding join_cluster join_graph init_clusters is_hnsw
  index_fresh e slot vec c =
      if is_hnsw e.manager.index_type
      then join_graph e slot vec
      else if e.manager.is_initialized
      then join_cluster e slot c vec
      else if leb kmeans_init_threshold (slot + 1)
      then init_clusters e (slot + 1)
      else e

  -- The cluster that a fresh insertion hands to `add_vector`.
  unfoldable pub fresh_cluster : Engine F G → List F → ℕ
  unfolding nearest_cluster is_hnsw
  fresh_cluster e vec =
      if is_hnsw e.manager.index_type
      then 0
      else if e.manager.is_initialized
      then nearest_cluster e vec
      else 0

  -- An exception of `add_vector` is caught and logged; the flag is pushed by then.
  unfoldable pub fresh_insert : Engine F G → ℕ → List F → Engine F G
  unfolding index_fresh fresh_cluster add_vector
  fresh_insert e id vec =
      let slot = e.manager.vector_count in
      let pushed = record e { deleted_flags = e.deleted_flags ++ false ∷ [] } in
      let c = fresh_cluster e vec in
      if leb e.manager.max_capacity slot then e else elim (add_vector e.manager id vec c) [
        | throw x ↦ pushed
        | ok m ↦
            let indexed = index_fresh (record pushed { manager = m }) slot vec c in
            record indexed { id_to_index = update_map indexed.id_to_index id (some slot) }
      ]

  unfoldable pub insert : Engine F G → ℕ → List F → Engine F G
  unfolding find_old_slot reinsert fresh_insert erase_id
  insert e id vec =
      let undeleted = record e { deleted_ids = erase_id id e.deleted_ids } in
      if contains e.deleted_ids id
      then elim (find_old_slot e.manager.vector_count 0 e.deleted_flags e.manager.id_block id) [
        | some slot ↦ reinsert undeleted id vec slot
        | none ↦ fresh_insert undeleted id vec
      ]
      else fresh_insert e id vec

  -- The id is handed out whether or not the vector is stored.
  unfoldable pub insert_auto : Engine F G → List F → ℕ × Engine F G
  unfolding insert next_id
  insert_auto e vec =
      let (new_id, m) = next_id e.manager in (new_id, insert (record e { manager = m }) new_id vec)
