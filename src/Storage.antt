-- ===== src/Storage.antt =====
-- include/redboxdb/storage_manager.hpp and the StorageManager namespace of src/engine.cpp: the
-- memory-mapped file of a database and its typed blocks.
pub mod Layout
pub mod Size
pub mod Access
pub mod Open
pub mod Reopen
use red_box_db.Base.{
  Bool, List, if◌then◌else◌, leb, length, not, take, true, update_map, ℕ, ◌%◌, ◌*◌, ◌+◌, ◌==◌,
}
use red_box_db.Metadata.{SpecificMetadata, is_hnsw}

pub data Exception : Type 0 where
  could_not_open fstat_failed ftruncate_failed mmap_failed : Exception
  legacy_layout dimension_mismatch_file : Exception
  dimension_mismatch database_full index_out_of_bounds : Exception

pub data Result {ℓ} (A : Type ℓ) : Type ℓ where
  ok : A → Result A
  throw : Exception → Result A

-- The blocks behind the header. `float_block` and `centroid_block` are read by rows: row i is the
-- `dimensions` floats that start at `i * dimensions`. The edge block is flat, as in the source.
pub record Manager (F : Type 0) : Type 0 where
  pub header : SpecificMetadata
  pub open header use *
  pub centroid_block : ℕ → List F
  pub cluster_count_block : ℕ → ℕ
  pub cluster_block : ℕ → ℕ
  pub id_block : ℕ → ℕ
  pub float_block : ℕ → List F
  pub hnsw_level_block : ℕ → ℕ
  pub hnsw_edge_block : ℕ → ℕ

module _ {F : Type 0} where
  -- `header->next_id++`, a `uint64_t`: the old value is returned.
  unfoldable pub next_id : Manager F → ℕ × Manager F
  next_id m = (
    m.header.next_id,
    record m {
      header = record m.header { next_id = (m.header.next_id + 1) % 18446744073709551616 };
    },
  )

  -- `id_block[slot] = id`, the row, the cluster in an IVF file, and the count.
  unfoldable pub write_slot : Manager F → ℕ → List F → ℕ → Manager F
  write_slot m id vec cluster = record m {
    header = record m.header { vector_count = m.vector_count + 1 };
    id_block = update_map m.id_block m.vector_count id;
    float_block = update_map m.float_block m.vector_count (take m.dimensions vec);
    cluster_block =
        if is_hnsw m.index_type
        then m.cluster_block
        else update_map m.cluster_block m.vector_count cluster;
  }

  unfoldable pub add_vector : Manager F → ℕ → List F → ℕ → Result (Manager F)
  unfolding write_slot
  add_vector m id vec cluster =
      if not (length vec == m.dimensions)
      then throw dimension_mismatch
      else if leb m.max_capacity m.vector_count
      then throw database_full
      else ok (write_slot m id vec cluster)

  -- The bound test that the getters share.
  unfoldable pub checked {ℓ} : {A : Type ℓ} → Manager F → ℕ → A → Result A
  checked m index a = if leb m.vector_count index then throw index_out_of_bounds else ok a

  -- The row that the pointer `get_float_ptr(index)` starts.
  unfoldable pub get_float_ptr : Manager F → ℕ → Result (List F)
  unfolding checked
  get_float_ptr m index = checked m index (m.float_block index)

  unfoldable pub get_id : Manager F → ℕ → Result ℕ
  unfolding checked
  get_id m index = checked m index (m.id_block index)

  unfoldable pub get_cluster : Manager F → ℕ → Result ℕ
  unfolding checked
  get_cluster m index = checked m index (m.cluster_block index)

  -- The stores behind the bound tests.
  unfoldable pub put_cluster : Manager F → ℕ → ℕ → Manager F
  put_cluster m index c = record m { cluster_block = update_map m.cluster_block index c }

  unfoldable pub set_cluster : Manager F → ℕ → ℕ → Result (Manager F)
  unfolding checked put_cluster
  set_cluster m index c = checked m index (put_cluster m index c)

  -- `memcpy(get_float_ptr_mut(index), vec, dimension * sizeof(float))`
  unfoldable pub put_row : Manager F → ℕ → List F → ℕ → Manager F
  put_row m index vec dimension = record m {
    float_block = update_map m.float_block index (take dimension vec);
  }

  unfoldable pub get_float_ptr_mut : Manager F → ℕ → List F → ℕ → Result (Manager F)
  unfolding checked put_row
  get_float_ptr_mut m index vec dimension = checked m index (put_row m index vec dimension)

  unfoldable pub get_count : Manager F → ℕ
  get_count m = m.vector_count

  unfoldable pub is_cluster_initialized : Manager F → Bool
  is_cluster_initialized m = m.is_initialized

  unfoldable pub set_cluster_initialized : Manager F → Manager F
  set_cluster_initialized m = record m { header = record m.header { is_initialized = true } }

  unfoldable pub set_num_probes : Manager F → ℕ → Manager F
  set_num_probes m p = record m { header = record m.header { num_probes = p } }

  unfoldable pub set_hnsw_ef_search : Manager F → ℕ → Manager F
  set_hnsw_ef_search m ef = record m { header = record m.header { hnsw_ef_search = ef } }
