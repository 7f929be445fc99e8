-- ===== src/Graph.antt =====
-- What src/engine.cpp asks of the HNSW index (include/redboxdb/hnsw_manager.hpp): operations on the
-- edge and level blocks of the file, and the laws that the engine relies on.
use red_box_db.Base.{Bool, List, Option, false, get_or, some, true, ℕ, ◌<◌, ◌≡◌, ◌⊎◌}
use red_box_db.Metadata.{uint32_max_sentinel}
use red_box_db.Storage.{Manager}

-- The edges lead to slots in use, and so does the entry point once there is one.
pub record IsLinked {F : Type 0} (m : Manager F) : Type 0 where
  pub edges :
      (i : ℕ) → (m.hnsw_edge_block i ≡ uint32_max_sentinel) ⊎ (m.hnsw_edge_block i < m.vector_count)
  pub entry : m.is_initialized ≡ true → m.hnsw_entry_point < m.vector_count

-- All but the graph is as it was.
pub record SameRows {F : Type 0} (m m' : Manager F) : Type 0 where
  pub count : m'.vector_count ≡ m.vector_count
  pub capacity : m'.max_capacity ≡ m.max_capacity
  pub dims : m'.dimensions ≡ m.dimensions
  pub ids : m'.id_block ≡ m.id_block
  pub floats : m'.float_block ≡ m.float_block
  pub kind : m'.index_type ≡ m.index_type
  pub auto : m'.next_id ≡ m.next_id

abbrev pub flag : List Bool → ℕ → Bool
flag flags i = get_or flags i false

-- A slot in use that is not deleted.
abbrev pub IsLive : {F : Type 0} → Manager F → List Bool → ℕ → Type 0
IsLive m flags i = (i < m.vector_count) × (flag flags i ≡ false)

-- `G` holds the random numbers and the buffers that insertions share.
pub record GraphIndex (F G : Type 0) : Type 0 where
  -- `hnsw_insert`, by slot, vector, dimension, `use_avx2` and `deleted_flags`
  pub insert : ℕ → List F → Manager F → ℕ → Bool → List Bool → G → Manager F × G
  -- `hnsw_search_1`; `none` for `EMPTY`
  pub search_1 : List F → Manager F → ℕ → Bool → List Bool → ℕ → Option ℕ
  -- `hnsw_search` for N results
  pub search : List F → ℕ → Manager F → ℕ → Bool → List Bool → List (F × ℕ)
  pub insert-SameRows :
      (slot : ℕ) (vec : List F) (m : Manager F) (dim : ℕ) (use_avx2 : Bool) (flags : List Bool)
      (g : G)
      → SameRows m (insert slot vec m dim use_avx2 flags g).0
  pub insert-IsLinked :
      (slot : ℕ) (vec : List F) (m : Manager F) (dim : ℕ) (use_avx2 : Bool) (flags : List Bool)
      (g : G)
      → slot < m.vector_count
      → IsLinked m
      → IsLinked (insert slot vec m dim use_avx2 flags g).0
  pub insert_initializes :
      (slot : ℕ) (vec : List F) (m : Manager F) (dim : ℕ) (use_avx2 : Bool) (flags : List Bool)
      (g : G)
      → (insert slot vec m dim use_avx2 flags g).0.is_initialized ≡ true
  pub search_1-IsLive :
      (query : List F) (m : Manager F) (dim : ℕ) (use_avx2 : Bool) (flags : List Bool) (ef slot : ℕ)
      → IsLinked m
      → m.is_initialized ≡ true
      → search_1 query m dim use_avx2 flags ef ≡ some slot
      → IsLive m flags slot
