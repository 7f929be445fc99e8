-- ===== src/Storage/Open.antt =====
-- The constructor of `StorageManager::Manager` (its POSIX branch).
use red_box_db.Base.{
  Bool, List, Option, false, if◌then◌else◌, ltb, none, not, some, true, ℕ, ◌&&◌, ◌*◌, ◌==◌,
}
use red_box_db.Metadata.{IndexType, SpecificMetadata, current_version, is_hnsw, uint32_max_sentinel}
use red_box_db.Storage.{
  Exception, Manager, could_not_open, dimension_mismatch_file, fstat_failed, ftruncate_failed,
  legacy_layout, mmap_failed,
}
use red_box_db.Storage.Size.{
  Pointers, calc_required_size, edges_per_node, full_size, setup_pointers, size_values,
}

-- What the calls of the operating system report.
pub record Calls : Type 0 where
  pub open_works : Bool
  pub fstat_works : Bool
  pub ftruncate_works : Bool
  pub mmap_works : Bool

pub record Request : Type 0 where
  pub dimensions : ℕ
  pub initial_capacity : ℕ
  pub num_clusters : ℕ
  pub num_probes : ℕ
  pub index_type : IndexType
  pub hnsw_m : ℕ
  pub hnsw_ef_construction : ℕ

-- A file that an earlier process wrote through pointers of its own.
pub record Stored (F : Type 0) : Type 0 where
  pub size : ℕ
  pub pointers : Pointers
  pub contents : Manager F

-- `moved`: no exception, but the blocks are looked for at other offsets than they were written at,
-- or the sizes have wrapped around and they overlap, so what is read there is not what was stored.
pub data Opened (F : Type 0) : Type 0 where
  attached : Manager F → Opened F
  moved : Pointers → Opened F
  failed : Exception → Opened F

same_offset : Option ℕ → Option ℕ → Bool
same_offset none none = true
same_offset none (some b) = false
same_offset (some a) none = false
same_offset (some a) (some b) = a == b

pub same_pointers : Pointers → Pointers → Bool
unfolding same_offset
same_pointers p q =
    same_offset p.centroid_block q.centroid_block
    && same_offset p.cluster_count_block q.cluster_count_block
    && same_offset p.cluster_block q.cluster_block
    && (p.id_block == q.id_block)
    && (p.float_block == q.float_block)
    && same_offset p.hnsw_level_block q.hnsw_level_block
    && same_offset p.hnsw_edge_block q.hnsw_edge_block

unfoldable pub pointers_of : Request → Pointers
unfolding setup_pointers
pointers_of r = setup_pointers r.dimensions r.initial_capacity r.num_clusters r.index_type

abbrev pub required_size : Request → ℕ
required_size r =
    calc_required_size r.dimensions r.initial_capacity r.num_clusters r.index_type r.hnsw_m

-- The header of a new file: zeroed, then set; the HNSW fields only in an HNSW file.
unfoldable pub fresh_header : Request → SpecificMetadata
unfolding is_hnsw
fresh_header r =
    let graph = is_hnsw r.index_type in
    record {
      vector_count = 0;
      max_capacity = r.initial_capacity;
      dimensions = r.dimensions;
      data_type_size = 4;
      next_id = 1;
      num_clusters = r.num_clusters;
      version = current_version;
      is_initialized = false;
      num_probes = r.num_probes;
      index_type = r.index_type;
      hnsw_m = if graph then r.hnsw_m else 0;
      hnsw_ef_construction = if graph then r.hnsw_ef_construction else 0;
      hnsw_ef_search = if graph then 256 else 0;
      hnsw_max_level = 0;
      hnsw_entry_point = if graph then uint32_max_sentinel else 0;
      hnsw_graph_version = 0;
    }

-- Whether the header and the blocks have fewer than 2^64 bytes.
unfoldable pub fits_size : Request → Bool
unfolding full_size
fits_size r =
    ltb (full_size r.dimensions r.initial_capacity r.num_clusters r.index_type r.hnsw_m) size_values

module _ {F : Type 0} where
  -- `ftruncate` fills with zero bytes: `zero_row` is a row of such floats.
  unfoldable pub fresh_manager : List F → Request → Manager F
  unfolding fresh_header
  fresh_manager zero_row r = record {
    header = fresh_header r;
    centroid_block = λ _. zero_row;
    cluster_count_block = λ _. 0;
    cluster_block = λ _. 0;
    id_block = λ _. 0;
    float_block = λ _. zero_row;
    hnsw_level_block = λ _. 0;
    hnsw_edge_block = λ i.
        if is_hnsw r.index_type && ltb i (r.initial_capacity * edges_per_node r.hnsw_m)
        then uint32_max_sentinel
        else 0;
  }

  -- The blocks are where they were written, if the sizes have not wrapped around.
  unfoldable pub mapped : Request → Manager F → Opened F
  unfolding fits_size pointers_of
  mapped r m = if fits_size r then attached m else moved (pointers_of r)

  unfoldable pub attach : Stored F → Request → Opened F
  unfolding same_pointers pointers_of mapped
  attach s r =
      if not (s.contents.version == current_version)
      then failed legacy_layout
      else if not (s.contents.dimensions == r.dimensions)
      then failed dimension_mismatch_file
      else if same_pointers s.pointers (pointers_of r)
      then mapped r s.contents
      else moved (pointers_of r)

  abbrev size_of : Option (Stored F) → ℕ
  size_of none = 0
  size_of (some s) = s.size

  -- A file of size 0 is treated as one that does not exist.
  abbrev setup : List F → Option (Stored F) → Request → Opened F
  setup zero_row none r = mapped r (fresh_manager zero_row r)
  setup zero_row (some s) r =
      if s.size == 0 then mapped r (fresh_manager zero_row r) else attach s r

  unfoldable pub open_manager : Calls → List F → Option (Stored F) → Request → Opened F
  unfolding attach mapped fresh_manager calc_required_size
  open_manager calls zero_row file r =
      if not calls.open_works
      then failed could_not_open
      else if not calls.fstat_works
      then failed fstat_failed
      else if ltb (size_of file) (required_size r) && not calls.ftruncate_works
      then failed ftruncate_failed
      else if not calls.mmap_works
      then failed mmap_failed
      else setup zero_row file r
