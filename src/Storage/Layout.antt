-- ===== src/Storage/Layout.antt =====
-- The blocks of a file tile it, and rows and edges lie in their blocks.
use red_box_db.Base.{List, Option, [], arith, some, ℕ, ◌*◌, ◌+◌, ◌<◌, ◌∷◌, ◌≡◌}
use red_box_db.Metadata.{IndexType, SpecificMetadata, header_size, hnsw, ivf}
use red_box_db.Storage.Size.{
  Pointers, calc_required_size, edges_per_node, setup_pointers, size_values, unmapped_size,
}

-- The byte ranges (start, length) of the blocks, in the order of the offsets.
abbrev pub regions : IndexType → Pointers → ℕ → ℕ → ℕ → ℕ → List (Option ℕ × ℕ)
regions ivf p dimensions capacity num_clusters hnsw_m =
    (p.centroid_block, num_clusters * (dimensions * 4))
    ∷ (p.cluster_count_block, num_clusters * 8)
    ∷ (p.cluster_block, capacity * 2)
    ∷ (some p.id_block, capacity * 8)
    ∷ (some p.float_block, capacity * (dimensions * 4))
    ∷ []
regions hnsw p dimensions capacity num_clusters hnsw_m =
    (some p.id_block, capacity * 8)
    ∷ (some p.float_block, capacity * (dimensions * 4))
    ∷ (p.hnsw_level_block, capacity)
    ∷ (p.hnsw_edge_block, capacity * (edges_per_node hnsw_m * 4))
    ∷ []

-- Each range starts where the one before it ends; the last one ends at `stop`.
abbrev pub Tiles : ℕ → List (Option ℕ × ℕ) → ℕ → Type 0
Tiles start [] stop = start ≡ stop
Tiles start (r ∷ rs) stop = (r.0 ≡ some start) × Tiles (start + r.1) rs stop

-- The bytes of all the ranges.
abbrev pub sum_of_lengths : List (Option ℕ × ℕ) → ℕ
sum_of_lengths [] = 0
sum_of_lengths (r ∷ rs) = r.1 + sum_of_lengths rs

-- Where the header and the blocks have fewer than 2^64 bytes together, the blocks of a file of
-- either type follow the header with no gap and no overlap, and end at the size that the file is
-- given.
pub setup_pointers-Tiles :
    (t : IndexType) (dimensions capacity num_clusters hnsw_m : ℕ)
    → let p = setup_pointers dimensions capacity num_clusters t in
      let rs = regions t p dimensions capacity num_clusters hnsw_m in
      header_size + sum_of_lengths rs < size_values
      → Tiles header_size rs (calc_required_size dimensions capacity num_clusters t hnsw_m)
unfolding setup_pointers calc_required_size
setup_pointers-Tiles ivf dimensions capacity num_clusters hnsw_m h = ground arith
setup_pointers-Tiles hnsw dimensions capacity num_clusters hnsw_m h = ground arith

-- The destructor unmaps the bytes that the constructor mapped, if the file was opened with the
-- capacity, dimensions, cluster count, type and M that its header records.
unmapped_size-calc_required_size :
    (h : SpecificMetadata)
    → unmapped_size h
      ≡ calc_required_size h.dimensions h.max_capacity h.num_clusters h.index_type h.hnsw_m
unfolding unmapped_size calc_required_size
unmapped_size-calc_required_size h = ground arith
