-- ===== src/Engine.antt =====
-- include/redboxdb/engine.hpp and the class `RedBoxVector` of src/engine.cpp: the vectors of one
-- database, their ids, and soft deletion. Every method holds the write or the read lock throughout.
pub mod Tombstones
pub mod Insert
pub mod Search
pub mod Valid
pub mod Store
pub mod Refine
pub mod Erase
pub mod Open
pub mod Nearest
mod Queue
mod Keeps
pub mod TopN
pub mod Durable
pub mod Logged
pub mod Grows
pub mod History
use red_box_db.Base.{Bool, List, Option, contains, false, if◌then◌else◌, none, some, true, ℕ, ◌%◌}
use red_box_db.Storage.{Manager, next_id, put_row}
use red_box_db.Storage

-- `deleted_ids` and `id_to_index` are hash containers: a list without order, and a map. The
-- tombstone file is `none` if it does not exist; otherwise it holds one 8-byte id after another.
pub record Engine (F G : Type 0) : Type 0 where
  pub dimension : ℕ
  pub manager : Manager F
  pub tombstone_file : Option (List ℕ)
  pub deleted_ids : List ℕ
  pub tombstone_entries_on_disk : ℕ
  pub deleted_flags : List Bool
  pub id_to_index : ℕ → Option ℕ
  pub cluster_index : ℕ → List ℕ
  pub graph : G
  pub use_avx2 : Bool

-- Constants of the class.
abbrev pub tombstone_compact_slack : ℕ
tombstone_compact_slack = 64

abbrev pub kmeans_init_threshold : ℕ
kmeans_init_threshold = 10000

module _ {F G : Type 0} where
  unfoldable pub get_dim : Engine F G → ℕ
  get_dim e = e.dimension % 4294967296

  unfoldable pub get_count : Engine F G → ℕ
  unfolding Storage.get_count
  get_count e = Storage.get_count e.manager

  unfoldable pub get_next_id : Engine F G → ℕ
  get_next_id e = e.manager.next_id

  -- A `uint8_t`, and a `uint16_t`; neither takes the lock.
  unfoldable pub set_num_probes : Engine F G → ℕ → Engine F G
  unfolding Storage.set_num_probes
  set_num_probes e p = record e { manager = Storage.set_num_probes e.manager p }

  unfoldable pub set_hnsw_ef_search : Engine F G → ℕ → Engine F G
  unfolding Storage.set_hnsw_ef_search
  set_hnsw_ef_search e ef = record e { manager = Storage.set_hnsw_ef_search e.manager ef }

  -- Nothing calls these two.
  unfoldable pub set_next_id : Engine F G → ℕ → Engine F G
  set_next_id e id = record e {
    manager = record e.manager { header = record e.manager.header { next_id = id } };
  }

  unfoldable pub set_vector_count : Engine F G → ℕ → Engine F G
  set_vector_count e c = record e {
    manager = record e.manager { header = record e.manager.header { vector_count = c } };
  }

  -- What a client sees stored under an id.
  unfoldable pub contents : Engine F G → ℕ → Option (List F)
  contents e id = elim (e.id_to_index id) [ none ↦ none | some i ↦ some (e.manager.float_block i) ]

  unfoldable pub update : Engine F G → ℕ → List F → Engine F G × Bool
  update e id vec = if contains e.deleted_ids id then (e, false) else elim (e.id_to_index id) [
    | none ↦ (e, false)
    | some i ↦ (record e { manager = put_row e.manager i vec e.dimension }, true)
  ]
