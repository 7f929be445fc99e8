-- ===== src/Tests/Hnsw.antt =====
-- A small HNSW graph: two linked slots.
use red_box_db.Base.{
  Bool-cases, List, [], arith, false, get_or, inl, inr, map, max, refl, true, update_map, ℕ, ◌*◌,
  ◌+◌, ◌<◌, ◌==◌, ◌∷◌, ◌≡◌, ◌≤◌, ◌⊎◌,
}
use red_box_db.Storage.{Manager}
use red_box_db.Tests.{first_draws, lone_graph, nat_double, nat_float, small_file}
use red_box_db.Graph.{IsLinked, SameRows}
use red_box_db.Hnsw.Edges.{set_neighbors_lem}
use red_box_db.Hnsw.Ordered.{IsFound, dist_to, hnsw_search-IsFound}
use red_box_db.Hnsw.Fuel.{enough_rounds}
use red_box_db.Hnsw.Search.{beam_loop, entry_beam, hnsw_search, improve, next_gen}
use red_box_db.Hnsw.{SearchResult, empty, level_start, m_max, set_neighbors}
use red_box_db.Hnsw.Single.{entry_single, hnsw_search_1, single_loop}
use red_box_db.Hnsw.Insert.{Shared, hnsw_insert}
use red_box_db.Hnsw.Links.{Linked, Live}
use red_box_db.Hnsw.Found.{hnsw_search_1-Live}
use red_box_db.Hnsw.Index.{hnsw_insert-IsLinked, hnsw_insert-SameRows, unvisited}

-- Slot 0 leads to slot 1, and slot 1 to slot 0.
abbrev two_edges : ℕ → ℕ
two_edges = update_map (update_map (λ _. empty) 0 1) 36 0

two_edges-Linked : Linked 2 two_edges
two_edges-Linked i = elim (Bool-cases (36 == i)) [
  | inl last ↦ rw last (inr (omega arith))
  | inr other ↦ rw other (elim (Bool-cases (0 == i)) [
    | inl first ↦ rw first (inr (omega arith))
    | inr rest ↦ rw rest (inl refl)
  ])
]

abbrev two_nodes : Manager ℕ
two_nodes =
    let m = small_file 3 in
    record m {
      header = record m.header {
        vector_count = 2;
        is_initialized = true;
        hnsw_m = 2;
        hnsw_ef_construction = 4;
        hnsw_ef_search = 4;
        hnsw_entry_point = 0;
        hnsw_max_level = 0;
      };
      float_block = update_map (λ _. 1 ∷ 1 ∷ []) 1 (5 ∷ 5 ∷ []);
      hnsw_edge_block = two_edges;
    }

hnsw_search_1-Live_example :
    let s = hnsw_search_1 (5 ∷ 4 ∷ []) two_nodes 2 false [] unvisited 8 in (s ≡ empty) ⊎ Live 2 [] s
hnsw_search_1-Live_example =
    hnsw_search_1-Live two_nodes 2 false [] (5 ∷ 4 ∷ []) unvisited 8 two_edges-Linked (omega arith)

search_finds : hnsw_search_1 (5 ∷ 4 ∷ []) two_nodes 2 false [] unvisited 8 ≡ 1
unfolding hnsw_search_1 small_file
search_finds = refl

abbrev shared : Shared
shared = record { levels = λ _. 0; drawn = 0; visits = unvisited }

-- Three slots are in use, and the third is about to join the graph.
abbrev three_nodes : Manager ℕ
three_nodes = record two_nodes { header = record two_nodes.header { vector_count = 3 } }

three_nodes-IsLinked : IsLinked three_nodes
three_nodes-IsLinked = record {
  edges = λ i. ground (arith, two_edges-Linked i);
  entry = λ _. omega arith;
}

hnsw_insert-IsLinked_example : IsLinked (hnsw_insert 2 (1 ∷ 1 ∷ []) three_nodes 2 false [] shared).0
hnsw_insert-IsLinked_example =
    hnsw_insert-IsLinked 2 (1 ∷ 1 ∷ []) three_nodes 2 false [] shared (omega arith)
      three_nodes-IsLinked

hnsw_insert-SameRows_example :
    SameRows three_nodes (hnsw_insert 2 (1 ∷ 1 ∷ []) three_nodes 2 false [] shared).0
hnsw_insert-SameRows_example = hnsw_insert-SameRows 2 (1 ∷ 1 ∷ []) three_nodes 2 false [] shared

-- The new slot is linked both ways.
insert_links :
    let m = (hnsw_insert 2 (1 ∷ 1 ∷ []) three_nodes 2 false [] shared).0 in
    (m.hnsw_edge_block 72 ≡ 0) × (m.hnsw_edge_block 1 ≡ 2)
unfolding hnsw_insert small_file
insert_links = (refl, refl)

set_neighbors_lem_example :
    let b = set_neighbors two_edges 1 0 2 (0 ∷ 2 ∷ []) in
    let lev = level_start 1 0 2 in
    ((k : ℕ) → k < m_max 0 2 → b (lev + k) ≡ get_or (0 ∷ 2 ∷ []) k empty)
    × ((j : ℕ) → j < lev → b j ≡ two_edges j)
    × ((j : ℕ) → lev + m_max 0 2 ≤ j → b j ≡ two_edges j)
set_neighbors_lem_example = set_neighbors_lem two_edges 1 0 2 (0 ∷ 2 ∷ [])

hnsw_search-IsFound_example :
    (rs : List (SearchResult ℕ)) × IsFound 2 []
      (dist_to two_nodes 2 false [] (5 ∷ 4 ∷ []))
      (max 4 2 * 4)
      rs
    × ((hnsw_search (5 ∷ 4 ∷ []) 2 two_nodes 2 false [] unvisited).0
        ≡ map (λ r. (r.dist, r.slot)) rs)
unfolding small_file
hnsw_search-IsFound_example =
    hnsw_search-IsFound two_nodes 2 false [] (5 ∷ 4 ∷ []) 2 unvisited (λ s lt. refl)
      two_edges-Linked (omega arith) (omega arith) (omega arith) (omega arith) (omega arith)

hnsw_search_runs :
    (hnsw_search (5 ∷ 4 ∷ []) 2 two_nodes 2 false [] unvisited).0 ≡ (1, 1) ∷ (25, 0) ∷ []
unfolding hnsw_search small_file
hnsw_search_runs = refl

enough_rounds_example :
    let q : List ℕ = 5 ∷ 4 ∷ [] in
    let dist = dist_to two_nodes 2 false [] q in
    let v = next_gen unvisited 3 in
    let start = λ (s : ℕ). level_start s 0 2 in
    (beam_loop 4 dist [] v.gen 8 two_edges start 4 (entry_beam dist [] v 0)
      ≡ beam_loop 9 dist [] v.gen 8 two_edges start 4 (entry_beam dist [] v 0))
    × (single_loop 4 dist [] v.gen 8 two_edges start 4 (entry_single dist [] v 0)
        ≡ single_loop 9 dist [] v.gen 8 two_edges start 4 (entry_single dist [] v 0))
    × (improve 3 dist [] two_edges start 4 0 (dist 0)
        ≡ improve 9 dist [] two_edges start 4 0 (dist 0))
unfolding small_file m_max
enough_rounds_example =
    enough_rounds two_nodes 2 false [] (5 ∷ 4 ∷ []) 0 8 0 9 unvisited two_edges-Linked (omega arith)
      (omega arith) (omega arith)
