-- ===== src/MetadataStore.antt =====
-- src/metadata_store.cpp: the rows of the table `databases`, as `create_database` writes them and
-- `load_database` reads them; Statements has the other operations. PostgreSQL and libpqxx are an
-- interface.
pub mod Rows
pub mod Statements
pub mod Listed
use red_box_db.Base.{
  Bool, List, Option, Pairwise, false, if◌then◌else◌, ltb, none, some, ℕ, ◌%◌, ◌-◌, ◌<◌, ◌≡◌, ◌≢◌,
}
use red_box_db.Base.Int.{negsuc, pos, to_int, ℤ}
use red_box_db.Metadata.{IndexType, SpecificMetadata, current_version, is_hnsw}

-- `(long)x` for 64 bits.
unfoldable pub to_long : ℕ → ℤ
to_long x =
    if ltb (x % 18446744073709551616) 9223372036854775808
    then pos (x % 18446744073709551616)
    else negsuc (18446744073709551615 - x % 18446744073709551616)

-- The columns by their names in sql/schema.sql, but for the name.
pub record Row : Type 0 where
  pub dimensions : ℤ
  pub index_type : IndexType
  pub capacity : ℤ
  pub vector_count : ℤ
  pub next_id : ℤ
  pub hnsw_m : ℤ
  pub hnsw_ef_construction : ℤ
  pub hnsw_ef_search : ℤ
  pub hnsw_max_level : ℤ
  pub hnsw_entry_point : ℤ
  pub hnsw_graph_version : ℤ
  pub ivf_num_clusters : ℤ
  pub ivf_num_probes : ℤ
  pub ivf_initialized : Bool

-- The conversions `as<…>` of libpqxx, `none` where they throw: to an unsigned type for a negative
-- number; not for a number in the range of the type.
pub record Conversions : Type 0 where
  pub as_uint64 : ℤ → Option ℕ
  pub as_uint32 : ℤ → Option ℕ
  pub as_int : ℤ → Option ℤ
  pub as_uint64-pos : (n : ℕ) → n < 18446744073709551616 → as_uint64 (pos n) ≡ some n
  pub as_uint32-pos : (n : ℕ) → n < 4294967296 → as_uint32 (pos n) ≡ some n
  pub as_uint32-negsuc : (n : ℕ) → as_uint32 (negsuc n) ≡ none
  pub as_int-pos : (n : ℕ) → n < 2147483648 → as_int (pos n) ≡ some (pos n)

-- The statements on the table `databases`, `none` where they throw, and on `audit_log`. Each acts on
-- the row of its name alone; the names are unique; the list has every row.
pub record Table (T : Type 0) : Type 0 where
  pub insert : List ℕ → Row → T → Option T
  -- with `ON CONFLICT (name) DO NOTHING`
  pub insert_new : List ℕ → Row → T → Option T
  pub select : List ℕ → T → Option Row
  pub update_counts : List ℕ → ℤ → ℤ → T → Option T
  pub update_hnsw : List ℕ → ℤ → ℤ → T → Option T
  pub delete : List ℕ → T → Option T
  pub names : T → List (List ℕ)
  -- Of the database, the operation and the vector.
  pub log : List ℕ → List ℕ → ℤ → T → T
  pub select-insert :
      (name : List ℕ) (row : Row) (t t' : T)
      → insert name row t ≡ some t'
      → select name t' ≡ some row
  pub select-insert_other :
      (name other : List ℕ) (row : Row) (t t' : T)
      → insert name row t ≡ some t'
      → other ≢ name
      → select other t' ≡ select other t
  pub select-update_counts :
      (name : List ℕ) (count next : ℤ) (row : Row) (t t' : T)
      → update_counts name count next t ≡ some t'
      → select name t ≡ some row
      → select name t' ≡ some (record row { vector_count = count; next_id = next })
  pub select-update_counts_other :
      (name other : List ℕ) (count next : ℤ) (t t' : T)
      → update_counts name count next t ≡ some t'
      → other ≢ name
      → select other t' ≡ select other t
  pub select-delete : (name : List ℕ) (t t' : T) → delete name t ≡ some t' → select name t' ≡ none
  pub select-delete_other :
      (name other : List ℕ) (t t' : T)
      → delete name t ≡ some t'
      → other ≢ name
      → select other t' ≡ select other t
  pub select-log :
      (name other op : List ℕ) (id : ℤ) (t : T) → select other (log name op id t) ≡ select other t
  pub names_unique : (t : T) → Pairwise (λ m n. m ≢ n) (names t)

infixl 5 ◌>>=◌
abbrev pub ◌>>=◌ {ℓ κ} : {A : Type ℓ} {B : Type κ} → Option A → (A → Option B) → Option B
none >>= f = none
some a >>= f = f a

-- The row of `create_database`.
unfoldable pub row_of : ℕ → IndexType → ℕ → SpecificMetadata → Row
unfolding to_int to_long
row_of dim type capacity params = record {
  dimensions = to_int dim;
  index_type = type;
  capacity = to_long capacity;
  vector_count = to_long params.vector_count;
  next_id = to_long params.next_id;
  hnsw_m = to_int params.hnsw_m;
  hnsw_ef_construction = to_int params.hnsw_ef_construction;
  hnsw_ef_search = to_int params.hnsw_ef_search;
  hnsw_max_level = to_int params.hnsw_max_level;
  hnsw_entry_point = to_int params.hnsw_entry_point;
  hnsw_graph_version = to_int params.hnsw_graph_version;
  ivf_num_clusters = to_int params.num_clusters;
  ivf_num_probes = to_int params.num_probes;
  ivf_initialized = params.is_initialized;
}

-- An `int` that is stored in an unsigned field of `size` values.
unfoldable pub narrow : ℕ → ℤ → ℕ
narrow size (pos n) = n % size
narrow size (negsuc n) = size - 1 - n % size

-- The fields of either type, with all others zero by `memset`.
abbrev pub cleared : IndexType → ℕ → ℕ → ℕ → ℕ → SpecificMetadata
cleared type dimensions vector_count capacity next_id = record {
  vector_count = vector_count;
  max_capacity = capacity;
  dimensions = dimensions;
  data_type_size = 4;
  next_id = next_id;
  num_clusters = 0;
  version = current_version;
  is_initialized = false;
  num_probes = 0;
  index_type = type;
  hnsw_m = 0;
  hnsw_ef_construction = 0;
  hnsw_ef_search = 0;
  hnsw_max_level = 0;
  hnsw_entry_point = 0;
  hnsw_graph_version = 0;
}

module _ ⦃conv : Conversions⦄ where
  -- The fields of an HNSW row, and those of an IVF row.
  unfoldable pub load_hnsw : Row → SpecificMetadata → Option SpecificMetadata
  unfolding narrow
  load_hnsw row out = do
    m ← conv.as_int row.hnsw_m
    ef_construction ← conv.as_int row.hnsw_ef_construction
    ef_search ← conv.as_int row.hnsw_ef_search
    level ← conv.as_int row.hnsw_max_level
    entry ← conv.as_uint32 row.hnsw_entry_point
    version ← conv.as_uint32 row.hnsw_graph_version
    some (record out {
      hnsw_m = narrow 256 m;
      hnsw_ef_construction = narrow 65536 ef_construction;
      hnsw_ef_search = narrow 65536 ef_search;
      hnsw_max_level = narrow 256 level;
      hnsw_entry_point = entry;
      hnsw_graph_version = version;
    })

  unfoldable pub load_ivf : Row → SpecificMetadata → Option SpecificMetadata
  unfolding narrow
  load_ivf row out = do
    clusters ← conv.as_int row.ivf_num_clusters
    probes ← conv.as_int row.ivf_num_probes
    some (record out {
      num_clusters = narrow 65536 clusters;
      num_probes = narrow 256 probes;
      is_initialized = row.ivf_initialized;
    })

  -- `none` where a conversion throws; the version is set at the end.
  unfoldable pub load_row : Row → Option SpecificMetadata
  unfolding load_hnsw load_ivf is_hnsw
  load_row row = do
    dimensions ← conv.as_uint64 row.dimensions
    vector_count ← conv.as_uint64 row.vector_count
    capacity ← conv.as_uint64 row.capacity
    next_id ← conv.as_uint64 row.next_id
    (if is_hnsw row.index_type then load_hnsw row else load_ivf row)
        (cleared row.index_type dimensions vector_count capacity next_id)

module _ {T : Type 0} ⦃table : Table T⦄ where
  unfoldable pub create_database : List ℕ → ℕ → IndexType → ℕ → SpecificMetadata → T → Option T
  unfolding row_of
  create_database name dim type capacity params t =
      table.insert name (row_of dim type capacity params) t

  -- `none` where an exception leaves it: the name has no row, or a conversion fails.
  unfoldable pub load_database : ⦃conv : Conversions⦄ → List ℕ → T → Option SpecificMetadata
  unfolding load_row
  load_database name t = do row ← table.select name t; load_row row
