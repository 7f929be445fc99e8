-- ===== src/Tests/Restart.antt =====
-- A server starts on the file of a database that holds a vector.
use red_box_db.Engine.Open.{reopen}
use red_box_db.Base.{
  All, Bool, Bool-cases, List, Option, [], arith, false, if◌then◌else◌, inl, inr, none, refl, some,
  subst, sym, true, ℕ, ◌∙◌, ◌∷◌, ◌≡◌,
}
use red_box_db.Base.Names.{same_name}
use red_box_db.Metadata.{SpecificMetadata, is_hnsw, ivf}
use red_box_db.Storage.Open.{Stored, attach, fresh_header, fresh_manager, pointers_of}
use red_box_db.MetadataStore.{Row, load_database, load_row, row_of}
use red_box_db.MetadataStore.Rows.{kept_of}
use red_box_db.MetadataStore.Statements.{is_known, list_databases, seed_from_files}
use red_box_db.MetadataStore.Listed.{bind-some}
use red_box_db.Engine.Insert.{insert}
use red_box_db.Engine.Durable.{IsFile}
use red_box_db.Tests.{first_draws, lone_graph, nat_double, nat_float, small_file, small_request}
use red_box_db.Tests.Tables.{
  checked_conversions, checked_int, checked_nat, list_add, list_names, list_select, list_table,
}
use red_box_db.Tests.Engine.{stored_db, stored_db-IsDurable, stored_db-IsStore}
use red_box_db.Tests.Server.{ab, ab-IsValid, env, nat_bits}
use red_box_db.Server.{Name, is_valid_db_name}
use red_box_db.Server.Engines.{AreFiles}
use red_box_db.Server.Startup.{
  Started, booted, load_all, load_one, lost, start_up, stored_request, up,
}
use red_box_db.Server.Framing.{Word}
use red_box_db.Server.Restart.{IsLeft}
use red_box_db.Server.Restored.{Restores, start_up-Restores}

abbrev left_header : SpecificMetadata
left_header = stored_db.manager.header

abbrev left_file : Stored ℕ
left_file = record {
  size = 1;
  pointers = pointers_of (small_request 3);
  contents = stored_db.manager;
}

abbrev left_files : Name → Option (Stored ℕ)
left_files = λ n. if same_name ab n then some left_file else none

abbrev left_tombstones : Name → Option (List ℕ)
left_tombstones = λ n. if same_name ab n then stored_db.tombstone_file else none

abbrev left_dir : Option (List (Name × Option SpecificMetadata))
left_dir = some ((ab, some left_header) ∷ [])

abbrev left_row : Row
left_row = row_of left_header.dimensions left_header.index_type left_header.max_capacity left_header

abbrev left_table : List (Name × Row)
left_table = (ab, left_row) ∷ []

left_seeded : seed_from_files left_dir [] ≡ some left_table
unfolding seed_from_files list_add list_names
left_seeded = refl

left_contents-IsFile : IsFile stored_db.manager stored_db.manager.dimensions
left_contents-IsFile = record {
  within = stored_db-IsStore.within;
  sized = refl;
  rows = λ i lt. stored_db-IsStore.rows i lt ∙ sym stored_db-IsStore.sized;
}

left_files-AreFiles : AreFiles left_files
left_files-AreFiles n st e = elim (Bool-cases (same_name ab n)) [
  | inl this ↦
      let same : left_file ≡ st = ground (arith, e, this) in
      subst (λ x. IsFile x.contents x.contents.dimensions) same left_contents-IsFile
  | inr other ↦ absurd (ground (arith, e, other))
]

left_row_loaded : load_row left_row ≡ some (kept_of ivf left_header)
unfolding load_row row_of checked_nat checked_int insert reopen small_file fresh_manager
    fresh_header
left_row_loaded = refl

left_row_alone :
    (n : Name) (params : SpecificMetadata)
    → load_database n left_table ≡ some params
    → kept_of ivf left_header ≡ params
unfolding load_database list_select
left_row_alone n params e = elim (Bool-cases (same_name ab n)) [
  | inl this ↦
      let (row, at, loaded) = bind-some (list_select n left_table) load_row params e in
      let rows : left_row ≡ row = ground (arith, at, this) in
      let all : some (kept_of ivf left_header) ≡ some params =
        subst (λ x. x ≡ some params) left_row_loaded (rw rows loaded) in
      ground (arith, all)
  | inr other ↦
      let (row, at, loaded) = bind-some (list_select n left_table) load_row params e in
      absurd (ground (arith, at, other))
]

left_dims-Word :
    (n : Name) (params : SpecificMetadata)
    → load_database n left_table ≡ some params
    → Word params.dimensions
unfolding insert reopen small_file fresh_manager fresh_header
left_dims-Word n params e =
    subst (λ (x : SpecificMetadata). Word x.dimensions) (left_row_alone n params e) (omega arith)

left_type :
    (params : SpecificMetadata)
    → load_database ab left_table ≡ some params
    → is_hnsw params.index_type ≡ is_hnsw stored_db.manager.index_type
unfolding insert reopen small_file fresh_manager fresh_header
left_type params e =
    subst (λ (x : SpecificMetadata). is_hnsw x.index_type ≡ is_hnsw stored_db.manager.index_type)
      (left_row_alone ab params e) refl

stored_db-IsLeft : IsLeft stored_db left_file
stored_db-IsLeft = record {
  store = stored_db-IsStore;
  durable = stored_db-IsDurable;
  nonempty = λ e. cc;
  mapped = refl;
}

left_names-IsValid : All (λ n. is_valid_db_name n ≡ true) (list_names left_table)
unfolding list_names
left_names-IsValid = (ab-IsValid, tt)

left_known : is_known ab (list_names left_table) ≡ true
unfolding is_known list_names
left_known = refl

abbrev left_start : Started ℕ (Unit {0}) (List (Name × Row))
left_start = start_up (λ i. env) 0 (some []) left_dir (booted left_files left_tombstones)

start_up-Restores_example : Restores stored_db ab left_start
unfolding same_name
start_up-Restores_example =
    start_up-Restores stored_db left_file ab (λ i. env) 0 [] left_dir left_files left_tombstones
      left_table left_files-AreFiles left_seeded left_names-IsValid left_dims-Word left_type
      stored_db-IsLeft refl refl left_known

abbrev keeps_store : Started ℕ (Unit {0}) (List (Name × Row)) → Bool
keeps_store lost = false
keeps_store (up s none) = false
keeps_store (up s (some t)) = true

-- The server keeps its store, so that the name does lead to the database.
left_start_keeps : keeps_store left_start ≡ true
unfolding start_up list_databases load_all load_one seed_from_files list_add list_names checked_nat
    checked_int same_name insert reopen small_file fresh_manager fresh_header pointers_of
    stored_request attach
left_start_keeps = refl
