-- ===== src/Storage/Size.antt =====
-- The sizes and offsets of the blocks: `calc_required_size`, the pointers that the constructor
-- sets, and the length that the destructor unmaps. Offsets are in bytes from `map_base`.
use red_box_db.Base.{Option, none, some, ℕ, ◌%◌, ◌*◌, ◌+◌}
use red_box_db.Metadata.{IndexType, SpecificMetadata, header_size, hnsw, ivf}

-- `MAX_LEVEL` and `edges_per_node` of include/redboxdb/hnsw_manager.hpp.
abbrev pub max_level : ℕ
max_level = 16

unfoldable pub edges_per_node : ℕ → ℕ
edges_per_node m = m * 2 + max_level * m

-- The number of values of a `size_t`.
abbrev pub size_values : ℕ
size_values = 18446744073709551616

-- The sum that `calc_required_size` computes, before it wraps around.
unfoldable pub full_size : ℕ → ℕ → ℕ → IndexType → ℕ → ℕ
full_size dimensions initial_capacity num_clusters ivf hnsw_m =
    header_size
    + initial_capacity * 8
    + initial_capacity * dimensions * 4
    + (num_clusters * dimensions * 4 + num_clusters * 8 + initial_capacity * 2)
full_size dimensions initial_capacity num_clusters hnsw hnsw_m =
    header_size
    + initial_capacity * 8
    + initial_capacity * dimensions * 4
    + (initial_capacity * 1 + initial_capacity * edges_per_node hnsw_m * 4)

unfoldable pub calc_required_size : ℕ → ℕ → ℕ → IndexType → ℕ → ℕ
unfolding full_size
calc_required_size dimensions initial_capacity num_clusters t hnsw_m =
    full_size dimensions initial_capacity num_clusters t hnsw_m % size_values

-- The blocks in the order of the file; a null pointer is `none`. An offset wraps around as a pointer
-- of 64 bits does.
pub record Pointers : Type 0 where
  pub centroid_block : Option ℕ
  pub cluster_count_block : Option ℕ
  pub cluster_block : Option ℕ
  pub id_block : ℕ
  pub float_block : ℕ
  pub hnsw_level_block : Option ℕ
  pub hnsw_edge_block : Option ℕ

unfoldable pub setup_pointers : ℕ → ℕ → ℕ → IndexType → Pointers
setup_pointers dimensions initial_capacity num_clusters ivf =
    let centroids : ℕ = header_size in
    let counts = (centroids + num_clusters * dimensions * 4) % size_values in
    let clusters = (counts + num_clusters * 8) % size_values in
    let ids = (clusters + initial_capacity * 2) % size_values in
    record {
      centroid_block = some centroids;
      cluster_count_block = some counts;
      cluster_block = some clusters;
      id_block = ids;
      float_block = (ids + initial_capacity * 8) % size_values;
      hnsw_level_block = none;
      hnsw_edge_block = none;
    }
setup_pointers dimensions initial_capacity num_clusters hnsw =
    let ids : ℕ = header_size in
    let floats = (ids + initial_capacity * 8) % size_values in
    let levels = (floats + initial_capacity * dimensions * 4) % size_values in
    record {
      centroid_block = none;
      cluster_count_block = none;
      cluster_block = none;
      id_block = ids;
      float_block = floats;
      hnsw_level_block = some levels;
      hnsw_edge_block = some ((levels + initial_capacity) % size_values);
    }

-- The `total` of the destructor, read from the header.
unfoldable pub unmapped_size : SpecificMetadata → ℕ
unmapped_size h = by_type h.index_type % size_values
  where
    by_type : IndexType → ℕ
    by_type hnsw =
        header_size
        + h.max_capacity * 8
        + h.max_capacity * h.dimensions * 4
        + h.max_capacity * 1
        + h.max_capacity * edges_per_node h.hnsw_m * 4
    by_type ivf =
        header_size
        + h.num_clusters * h.dimensions * 4
        + h.num_clusters * 8
        + h.max_capacity * 2
        + h.max_capacity * 8
        + h.max_capacity * h.dimensions * 4
