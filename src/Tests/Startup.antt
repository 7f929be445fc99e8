-- ===== src/Tests/Startup.antt =====
-- A start-up with a metadata store to which one file is added.
use red_box_db.Base.{
  All, Bool-cases, List, Option, [], arith, false, inl, inr, none, refl, some, subst, true, ℕ, ◌∷◌,
  ◌≡◌,
}
use red_box_db.Metadata.{SpecificMetadata, ivf}
use red_box_db.Storage.Open.{fresh_header, fresh_manager}
use red_box_db.MetadataStore.{Row, load_database, load_row, row_of}
use red_box_db.MetadataStore.Statements.{list_databases, seed_from_files}
use red_box_db.MetadataStore.Rows.{kept_of}
use red_box_db.MetadataStore.Listed.{bind-some}
use red_box_db.Tests.{first_draws, lone_graph, nat_double, nat_float}
use red_box_db.Tests.Tables.{
  checked_conversions, checked_int, checked_nat, list_add, list_names, list_select, list_table,
}
use red_box_db.Tests.Server.{ab, ab-IsValid, env, nat_bits}
use red_box_db.Server.{Name, is_valid_db_name}
use red_box_db.Server.Serve.{add_database, ivf_request, new_engine}
use red_box_db.Server.Startup.{Started, booted, load_all, load_one, start_up, up}
use red_box_db.Server.Framing.{Word}
use red_box_db.Server.Runs.{Runs, start_up-Runs}
use red_box_db.Server.Engines.{AreFiles}
use red_box_db.Base.Names.{same_name}

abbrev pub ab_header : SpecificMetadata
ab_header = fresh_header (ivf_request 2 3)

abbrev ab_dir : Option (List (Name × Option SpecificMetadata))
ab_dir = some ((ab, some ab_header) ∷ (ab, none) ∷ [])

abbrev pub ab_row : Row
ab_row = row_of 2 ivf 3 ab_header

abbrev pub ab_table : List (Name × Row)
ab_table = (ab, ab_row) ∷ []

ab_seeded : seed_from_files ab_dir [] ≡ some ab_table
unfolding seed_from_files list_add list_names fresh_header
ab_seeded = refl

ab_names-IsValid : All (λ n. is_valid_db_name n ≡ true) (list_names ab_table)
unfolding list_names
ab_names-IsValid = (ab-IsValid, tt)

ab_selected : (n : Name) → same_name ab n ≡ true → list_select n ab_table ≡ some ab_row
unfolding list_select
ab_selected n same = ground (arith, same)

ab_alone : (n : Name) → same_name ab n ≡ false → list_select n ab_table ≡ none
unfolding list_select
ab_alone n other = ground (arith, other)

ab_row_loaded : load_row ab_row ≡ some (kept_of ivf ab_header)
unfolding load_row fresh_header checked_nat row_of checked_int
ab_row_loaded = refl

ab_dims-Word :
    (n : Name) (params : SpecificMetadata)
    → load_database n ab_table ≡ some params
    → Word params.dimensions
unfolding load_database fresh_header
ab_dims-Word n params e =
    let (row, at, loaded) = bind-some (list_select n ab_table) load_row params e in
    elim (Bool-cases (same_name ab n)) [
      | inl same ↦
          let rows : ab_row ≡ row = ground (arith, at, ab_selected n same) in
          let all : some (kept_of ivf ab_header) ≡ some params =
            subst (λ x. x ≡ some params) ab_row_loaded (rw rows loaded) in
          let dims : 2 ≡ params.dimensions = ground (arith, all) in omega (arith, dims)
      | inr other ↦ absurd (ground (arith, at, ab_alone n other))
    ]

no_files : AreFiles {F = ℕ} (λ n. none)
no_files = λ n st e. cc

abbrev ab_begin : Started ℕ (Unit {0}) (List (Name × Row))
ab_begin = start_up (λ i. env) 0 (some []) ab_dir (booted (λ n. none) (λ n. none))

start_up-Runs_example : Runs (list_names ab_table) ab_begin
start_up-Runs_example =
    start_up-Runs (λ i. env) 0 [] ab_dir (λ n. none) (λ n. none) ab_table no_files ab_seeded
      ab_names-IsValid ab_dims-Word

-- The database is open, and the store stays.
ab_started :
    ab_begin
    ≡ up
        (add_database
          (booted (λ n. none) (λ n. none))
          ab
          (new_engine env none (ivf_request 2 3) (fresh_manager (0 ∷ 0 ∷ []) (ivf_request 2 3))))
        (some ab_table)
unfolding start_up list_databases load_all load_one seed_from_files list_add list_names checked_nat
    checked_int
ab_started = refl
