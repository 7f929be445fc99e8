-- ===== src/MetadataStore/Statements.antt =====
-- src/metadata_store.cpp: the statements that change a row and the log, the list of the databases,
-- and the rows that are made from files.
use red_box_db.Base.Names.{same_name}
use red_box_db.Base.Int.{to_int}
use red_box_db.Base.{Bool, List, Option, [], false, if◌then◌else◌, none, some, ℕ, ◌||◌, ◌∷◌}
use red_box_db.Metadata.{IndexType, SpecificMetadata}
use red_box_db.MetadataStore.{Conversions, Row, Table, row_of, to_long, ◌>>=◌}

-- `known.count(name)`
unfoldable pub is_known : List ℕ → List (List ℕ) → Bool
unfolding same_name
is_known name [] = false
is_known name (n ∷ known) = same_name n name || is_known name known

module _ {T : Type 0} ⦃table : Table T⦄ where
  -- The changes of a row, and of the log.
  unfoldable pub update_counts : List ℕ → ℕ → ℕ → T → Option T
  unfolding to_long
  update_counts name vector_count next_id t =
      table.update_counts name (to_long vector_count) (to_long next_id) t

  unfoldable pub update_hnsw_state : List ℕ → ℕ → ℕ → T → Option T
  unfolding to_int
  update_hnsw_state name entry_point graph_version t =
      table.update_hnsw name (to_int entry_point) (to_int graph_version) t

  unfoldable pub drop_row : List ℕ → T → Option T
  drop_row name t = table.delete name t

  unfoldable pub log_operation : List ℕ → List ℕ → ℕ → T → T
  unfolding to_long
  log_operation db_name op vec_id t = table.log db_name op (to_long vec_id) t

  -- The files with the extension .db of the data directory, by their stems, with the headers of those
  -- that are long enough. `known` is read before the loop.
  unfoldable pub seed_files : List (List ℕ) → List (List ℕ × Option SpecificMetadata) → T → Option T
  unfolding row_of
  seed_files known [] t = some t
  seed_files known ((db_name, header) ∷ entries) t =
      if is_known db_name known then seed_files known entries t else elim header [
        | none ↦ seed_files known entries t
        | some h ↦ do
          t' ← table.insert_new db_name (row_of h.dimensions h.index_type h.max_capacity h) t
          seed_files known entries t'
      ]

  -- `none` for a directory that is not there.
  unfoldable pub seed_from_files : Option (List (List ℕ × Option SpecificMetadata)) → T → Option T
  unfolding seed_files
  seed_from_files none t = some t
  seed_from_files (some entries) t = seed_files (table.names t) entries t

pub record DbInfo : Type 0 where
  pub name : List ℕ
  pub dimensions : ℕ
  pub index_type : IndexType
  pub capacity : ℕ
  pub vector_count : ℕ
  pub next_id : ℕ

module _ ⦃conv : Conversions⦄ where
  -- `none` where a conversion throws.
  unfoldable pub info_of : List ℕ → Row → Option DbInfo
  info_of name row = do
    dimensions ← conv.as_uint32 row.dimensions
    capacity ← conv.as_uint64 row.capacity
    vector_count ← conv.as_uint64 row.vector_count
    next_id ← conv.as_uint64 row.next_id
    some (record {
      name = name;
      dimensions = dimensions;
      index_type = row.index_type;
      capacity = capacity;
      vector_count = vector_count;
      next_id = next_id;
    })

module _ {T : Type 0} ⦃table : Table T⦄ ⦃conv : Conversions⦄ where
  unfoldable pub infos_of : List (List ℕ) → T → Option (List DbInfo)
  unfolding info_of
  infos_of [] t = some []
  infos_of (name ∷ names) t = do
    row ← table.select name t
    info ← info_of name row
    infos ← infos_of names t
    some (info ∷ infos)

  unfoldable pub list_databases : T → Option (List DbInfo)
  unfolding infos_of
  list_databases t = infos_of (table.names t) t
