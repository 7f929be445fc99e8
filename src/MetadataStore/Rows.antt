-- ===== src/MetadataStore/Rows.antt =====
-- What src/metadata_store.cpp reads back of the rows that it writes.
use red_box_db.Base.{
  Bool-cases, List, Option, arith, false, if◌then◌else◌, inl, inr, leb, leb→le, none, refl, some, ℕ,
  ◌-◌, ◌<◌, ◌≡◌, ◌≤◌,
}
use red_box_db.Base.Int.{negsuc, pos, to_int, to_int_small}
use red_box_db.Metadata.{IndexType, SpecificMetadata, current_version, hnsw, is_hnsw, ivf}
use red_box_db.MetadataStore.{
  Conversions, Row, Table, cleared, create_database, load_database, load_hnsw, load_ivf, load_row,
  narrow, row_of, to_long,
}

-- The fields are in the range of their types, and those that go through a signed type of the same
-- width, but for the entry point, in its range.
pub record IsStorable (h : SpecificMetadata) : Type 0 where
  pub vector_count : h.vector_count < 9223372036854775808
  pub max_capacity : h.max_capacity < 9223372036854775808
  pub next_id : h.next_id < 9223372036854775808
  pub dimensions : h.dimensions < 2147483648
  pub num_clusters : h.num_clusters < 65536
  pub num_probes : h.num_probes < 256
  pub hnsw_m : h.hnsw_m < 256
  pub hnsw_ef_construction : h.hnsw_ef_construction < 65536
  pub hnsw_ef_search : h.hnsw_ef_search < 65536
  pub hnsw_max_level : h.hnsw_max_level < 256
  pub hnsw_entry_point : h.hnsw_entry_point < 4294967296
  pub hnsw_graph_version : h.hnsw_graph_version < 2147483648

-- The header without the fields that are for the other type of index.
abbrev pub kept_of : IndexType → SpecificMetadata → SpecificMetadata
kept_of hnsw h = record h {
  data_type_size = 4;
  version = current_version;
  num_clusters = 0;
  is_initialized = false;
  num_probes = 0;
  index_type = hnsw;
}
kept_of ivf h = record h {
  data_type_size = 4;
  version = current_version;
  hnsw_m = 0;
  hnsw_ef_construction = 0;
  hnsw_ef_search = 0;
  hnsw_max_level = 0;
  hnsw_entry_point = 0;
  hnsw_graph_version = 0;
  index_type = ivf;
}

to_long_small : (n : ℕ) → n < 9223372036854775808 → to_long n ≡ pos n
unfolding to_long
to_long_small n h = ground arith

to_int_big : (n : ℕ) → 2147483648 ≤ n → n < 4294967296 → to_int n ≡ negsuc (4294967295 - n)
unfolding to_int
to_int_big n big h = ground arith

narrow_byte : (n : ℕ) → n < 256 → narrow 256 (pos n) ≡ n
unfolding narrow
narrow_byte n h = ground arith

narrow_short : (n : ℕ) → n < 65536 → narrow 65536 (pos n) ≡ n
unfolding narrow
narrow_short n h = ground arith

module _ ⦃conv : Conversions⦄ where
  as_int-to_int : (n : ℕ) → n < 2147483648 → conv.as_int (to_int n) ≡ some (pos n)
  as_int-to_int n h = rw (to_int_small n h) (conv.as_int-pos n h)

  as_uint32-to_int : (n : ℕ) → n < 2147483648 → conv.as_uint32 (to_int n) ≡ some n
  as_uint32-to_int n h = rw (to_int_small n h) (conv.as_uint32-pos n (omega arith))

  as_uint64-to_int : (n : ℕ) → n < 2147483648 → conv.as_uint64 (to_int n) ≡ some n
  as_uint64-to_int n h = rw (to_int_small n h) (conv.as_uint64-pos n (omega arith))

  as_uint64-to_long : (n : ℕ) → n < 9223372036854775808 → conv.as_uint64 (to_long n) ≡ some n
  as_uint64-to_long n h = rw (to_long_small n h) (conv.as_uint64-pos n (omega arith))

  as_uint32-big : (n : ℕ) → 2147483648 ≤ n → n < 4294967296 → conv.as_uint32 (to_int n) ≡ none
  as_uint32-big n big h = rw (to_int_big n big h) (conv.as_uint32-negsuc (4294967295 - n))

  abbrev row_for : IndexType → SpecificMetadata → Row
  row_for type h = row_of h.dimensions type h.max_capacity h

  -- The fields of either type come back.
  load_row-cleared :
      (type : IndexType) (h : SpecificMetadata)
      → IsStorable h
      → load_row (row_for type h)
        ≡ (if is_hnsw type then load_hnsw (row_for type h) else load_ivf (row_for type h))
            (cleared type h.dimensions h.vector_count h.max_capacity h.next_id)
  unfolding load_row row_of
  load_row-cleared type h s =
      rw
        (
          as_uint64-to_int h.dimensions s.dimensions,
          as_uint64-to_long h.vector_count s.vector_count,
          as_uint64-to_long h.max_capacity s.max_capacity,
          as_uint64-to_long h.next_id s.next_id,
        )
        refl

  load_ivf_row :
      (h : SpecificMetadata) → IsStorable h → load_row (row_for ivf h) ≡ some (kept_of ivf h)
  unfolding load_ivf row_of is_hnsw
  load_ivf_row h s =
      rw
        (
          load_row-cleared ivf h s,
          as_int-to_int h.num_clusters (omega (arith, s.num_clusters)),
          as_int-to_int h.num_probes (omega (arith, s.num_probes)),
          narrow_short h.num_clusters s.num_clusters,
          narrow_byte h.num_probes s.num_probes,
        )
        refl

  load_hnsw_row :
      (h : SpecificMetadata)
      → IsStorable h
      → h.hnsw_entry_point < 2147483648
      → load_row (row_for hnsw h) ≡ some (kept_of hnsw h)
  unfolding load_hnsw row_of is_hnsw
  load_hnsw_row h s entry =
      rw
        (
          load_row-cleared hnsw h s,
          as_int-to_int h.hnsw_m (omega (arith, s.hnsw_m)),
          as_int-to_int h.hnsw_ef_construction (omega (arith, s.hnsw_ef_construction)),
          as_int-to_int h.hnsw_ef_search (omega (arith, s.hnsw_ef_search)),
          as_int-to_int h.hnsw_max_level (omega (arith, s.hnsw_max_level)),
          as_uint32-to_int h.hnsw_entry_point entry,
          as_uint32-to_int h.hnsw_graph_version s.hnsw_graph_version,
          narrow_byte h.hnsw_m s.hnsw_m,
          narrow_short h.hnsw_ef_construction s.hnsw_ef_construction,
          narrow_short h.hnsw_ef_search s.hnsw_ef_search,
          narrow_byte h.hnsw_max_level s.hnsw_max_level,
        )
        refl

  lost_hnsw_row :
      (h : SpecificMetadata)
      → IsStorable h
      → 2147483648 ≤ h.hnsw_entry_point
      → load_row (row_for hnsw h) ≡ none
  unfolding load_hnsw row_of is_hnsw
  lost_hnsw_row h s entry =
      rw
        (
          load_row-cleared hnsw h s,
          as_int-to_int h.hnsw_m (omega (arith, s.hnsw_m)),
          as_int-to_int h.hnsw_ef_construction (omega (arith, s.hnsw_ef_construction)),
          as_int-to_int h.hnsw_ef_search (omega (arith, s.hnsw_ef_search)),
          as_int-to_int h.hnsw_max_level (omega (arith, s.hnsw_max_level)),
          as_uint32-big h.hnsw_entry_point entry s.hnsw_entry_point,
        )
        refl

  -- The entry point of an HNSW database goes through an int on the way to its column.
  abbrev pub reads_back : IndexType → SpecificMetadata → Option SpecificMetadata
  reads_back ivf h = some (kept_of ivf h)
  reads_back hnsw h = if leb 2147483648 h.hnsw_entry_point then none else some (kept_of hnsw h)

  load_row-row_of :
      (type : IndexType) (h : SpecificMetadata)
      → IsStorable h
      → load_row (row_for type h) ≡ reads_back type h
  load_row-row_of ivf h s = load_ivf_row h s
  load_row-row_of hnsw h s = elim (Bool-cases (leb 2147483648 h.hnsw_entry_point)) [
    | inl lost ↦ rw lost (lost_hnsw_row h s (leb→le _ _ lost))
    | inr fits ↦ rw fits (load_hnsw_row h s (ground (arith, fits)))
  ]

  -- A header that create_database stored is loaded again with the fields of its type of index, if
  -- its count of vectors, capacity and next id are below 2^63, its dimension and graph version below
  -- 2^31, and its other numbers are of the bits of their fields; but for an HNSW database whose
  -- entry point is from 2^31 on, as it is while the graph is empty, load_database throws.
  pub load_database-create_database :
      {T : Type 0} ⦃table : Table T⦄ (name : List ℕ) (type : IndexType) (h : SpecificMetadata)
      (t t' : T)
      → IsStorable h
      → create_database name h.dimensions type h.max_capacity h t ≡ some t'
      → load_database name t' ≡ reads_back type h
  unfolding create_database load_database
  load_database-create_database ⦃table⦄ name type h t t' s e =
      rw (table.select-insert name (row_for type h) t t' e) (load_row-row_of type h s)
