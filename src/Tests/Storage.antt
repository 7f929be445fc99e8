-- ===== src/Tests/Storage.antt =====
-- The file layout, the accessors and the constructor at small inputs.
use red_box_db.Base.{[], arith, refl, some, true, ℕ, ◌∷◌, ◌≡◌, ◌≢◌}
use red_box_db.Metadata.{header_size, hnsw}
use red_box_db.Storage.{Manager, add_vector, database_full, ok, throw, write_slot}
use red_box_db.Storage.Size.{edges_per_node, Pointers, calc_required_size, setup_pointers}
use red_box_db.Storage.Layout.{Tiles, regions, setup_pointers-Tiles}
use red_box_db.Storage.Access.{Added, add_vector-Added}
use red_box_db.Storage.Open.{Calls, Stored, moved, open_manager, pointers_of, required_size}
use red_box_db.Storage.Reopen.{WrittenAs, open_manager_resized}
use red_box_db.Tests.{first_draws, lone_graph, nat_double, nat_float, small_file, small_request}

setup_pointers-Tiles_example :
    Tiles header_size
      (regions hnsw (setup_pointers 4 10 7 hnsw) 4 10 7 2)
      (calc_required_size 4 10 7 hnsw 2)
unfolding edges_per_node
setup_pointers-Tiles_example = setup_pointers-Tiles hnsw 4 10 7 2 (omega arith)

one_added : Manager ℕ
unfolding write_slot small_file
one_added = write_slot (small_file 3) 70 (5 ∷ 6 ∷ []) 1

small_added : add_vector (small_file 3) 70 (5 ∷ 6 ∷ []) 1 ≡ ok one_added
unfolding one_added add_vector small_file
small_added = refl

add_vector-Added_example : Added (small_file 3) 70 (5 ∷ 6 ∷ []) one_added
add_vector-Added_example = add_vector-Added (small_file 3) one_added 70 (5 ∷ 6 ∷ []) 1 small_added

add_vector_full : add_vector (small_file 0) 70 (5 ∷ 6 ∷ []) 1 ≡ throw database_full
unfolding add_vector small_file
add_vector_full = refl

abbrev all_work : Calls
all_work = record {
  open_works = true;
  fstat_works = true;
  ftruncate_works = true;
  mmap_works = true;
}

-- The file of `one_added`, as it was written.
abbrev written : Stored ℕ
written = record {
  size = required_size (small_request 3);
  pointers = pointers_of (small_request 3);
  contents = one_added;
}

written-WrittenAs : WrittenAs written (small_request 3)
unfolding one_added calc_required_size
written-WrittenAs = record {
  nonempty = λ e. absurd (omega arith);
  current = refl;
  same_dimensions = refl;
  at_pointers = refl;
}

open_manager_resized_example :
    (p : Pointers) × (open_manager all_work (0 ∷ 0 ∷ []) (some written) (small_request 5) ≡ moved p)
    × (p.float_block ≢ written.pointers.float_block)
open_manager_resized_example =
    open_manager_resized all_work (0 ∷ 0 ∷ []) written (small_request 3) 5 (refl, refl, refl, refl)
      written-WrittenAs (omega arith) (omega arith) (λ e. absurd (omega arith))
