-- ===== src/Tests/MetadataStore.antt =====
-- A header that is stored in a table, and loaded again.
use red_box_db.Base.{List, [], arith, none, refl, some, ℕ, ◌∷◌, ◌≡◌}
use red_box_db.Metadata.{SpecificMetadata, hnsw}
use red_box_db.Storage.Open.{fresh_header}
use red_box_db.MetadataStore.{Row, create_database, load_database, row_of}
use red_box_db.MetadataStore.Rows.{IsStorable, load_database-create_database, reads_back}
use red_box_db.Server.Serve.{hnsw_request}
use red_box_db.Tests.Tables.{checked_conversions, list_insert, list_table}

abbrev graph_header : SpecificMetadata
graph_header = fresh_header (hnsw_request 2 3 16 200)

graph_header-IsStorable : IsStorable graph_header
unfolding fresh_header
graph_header-IsStorable = record {
  vector_count = omega arith;
  max_capacity = omega arith;
  next_id = omega arith;
  dimensions = omega arith;
  num_clusters = omega arith;
  num_probes = omega arith;
  hnsw_m = omega arith;
  hnsw_ef_construction = omega arith;
  hnsw_ef_search = omega arith;
  hnsw_max_level = omega arith;
  hnsw_entry_point = omega arith;
  hnsw_graph_version = omega arith;
}

abbrev graph_table : List (List ℕ × Row)
graph_table =
    (b'g' ∷ [], row_of graph_header.dimensions hnsw graph_header.max_capacity graph_header) ∷ []

graph_created :
    create_database
      (b'g' ∷ [])
      graph_header.dimensions
      hnsw
      graph_header.max_capacity
      graph_header
      []
    ≡ some graph_table
unfolding create_database list_insert
graph_created = refl

load_database-create_database_example :
    load_database (b'g' ∷ []) graph_table ≡ reads_back hnsw graph_header
load_database-create_database_example =
    load_database-create_database (b'g' ∷ []) hnsw graph_header [] graph_table
      graph_header-IsStorable graph_created

-- The database that CREATE_HNSW has just made.
graph_lost : load_database (b'g' ∷ []) graph_table ≡ none
unfolding fresh_header
graph_lost = load_database-create_database_example
