-- ===== src/Metadata.antt =====
-- include/redboxdb/SpecificMetadata.hpp: the header at the start of a database file.
use red_box_db.Base.{Bool, false, true, ℕ}

-- The byte in the file is 0 or 1; the program writes no other.
pub data IndexType : Type 0 where
  ivf : IndexType
  hnsw : IndexType

pub record SpecificMetadata : Type 0 where
  pub vector_count : ℕ
  pub max_capacity : ℕ
  pub dimensions : ℕ
  pub data_type_size : ℕ
  pub next_id : ℕ
  pub num_clusters : ℕ
  pub version : ℕ
  pub is_initialized : Bool
  pub num_probes : ℕ
  pub index_type : IndexType
  pub hnsw_m : ℕ
  pub hnsw_ef_construction : ℕ
  pub hnsw_ef_search : ℕ
  pub hnsw_max_level : ℕ
  pub hnsw_entry_point : ℕ
  pub hnsw_graph_version : ℕ

abbrev pub current_version : ℕ
current_version = 4

abbrev pub uint32_max_sentinel : ℕ
uint32_max_sentinel = 0xFFFFFFFF

-- `sizeof(SpecificMetadata)`, which the source asserts.
abbrev pub header_size : ℕ
header_size = 128

unfoldable pub is_hnsw : IndexType → Bool
is_hnsw ivf = false
is_hnsw hnsw = true
