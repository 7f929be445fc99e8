-- ===== src/Hnsw.antt =====
-- include/redboxdb/hnsw_manager.hpp: the edge lists of the HNSW graph, and the choice of neighbours.
-- A pointer into the edge block is an offset in it.
pub mod Search
pub mod Single
pub mod Insert
pub mod Edges
mod Choice
pub mod Links
mod Singles
pub mod Found
mod Wired
pub mod Index
mod Beams
pub mod Ordered
pub mod Fuel
pub mod Levels
use red_box_db.Base.{
  Bool, List, [], false, for_range, get_or, if◌then◌else◌, leb, length, ltb, map, suc, take, true,
  update_map, zero, ℕ, ◌*◌, ◌++◌, ◌+◌, ◌-◌, ◌==◌, ◌∷◌,
}
use red_box_db.Floats.{Float}
use red_box_db.Distance.{l2}
use red_box_db.Metadata.{uint32_max_sentinel}
use red_box_db.Storage.Size.{edges_per_node}

abbrev pub empty : ℕ
empty = uint32_max_sentinel

unfoldable pub m_max : ℕ → ℕ → ℕ
m_max level m = if level == 0 then m * 2 else m

abbrev pub node_edges : ℕ → ℕ → ℕ
node_edges slot m = slot * edges_per_node m

abbrev pub level_edges : ℕ → ℕ → ℕ → ℕ
level_edges node_ed level m = if level == 0 then node_ed else node_ed + m * 2 + (level - 1) * m

-- The offset of the edges of a slot at a level.
unfoldable pub level_start : ℕ → ℕ → ℕ → ℕ
unfolding edges_per_node
level_start slot level m = level_edges (node_edges slot m) level m

unfoldable pub level_edge_count : (ℕ → ℕ) → ℕ → ℕ → ℕ
unfolding for_range
level_edge_count block lev m_max_val =
    for_range m_max_val 0 (λ i count. if block (lev + i) == empty then count else count + 1) 0

unfoldable pub set_neighbors : (ℕ → ℕ) → ℕ → ℕ → ℕ → List ℕ → ℕ → ℕ
unfolding for_range level_start m_max
set_neighbors block slot level m neighbors =
    let lev = level_start slot level m in
    for_range (m_max level m) 0 (λ i b. update_map b (lev + i) (get_or neighbors i empty)) block

-- The rounds that `append_neighbor` has left, from the offset `at`.
unfoldable pub append_at : ℕ → (ℕ → ℕ) → ℕ → ℕ → ℕ → ℕ
append_at zero block place neighbor = block
append_at (suc rounds) block place neighbor =
    let rest = append_at rounds block (place + 1) neighbor in
    if block place == empty then update_map block place neighbor else rest

unfoldable pub append_neighbor : (ℕ → ℕ) → ℕ → ℕ → ℕ → ℕ → ℕ → ℕ
unfolding append_at level_start m_max
append_neighbor block slot level m neighbor =
    append_at (m_max level m) block (level_start slot level m) neighbor

pub record SearchResult (F : Type 0) : Type 0 where
  pub dist : F
  pub slot : ℕ

abbrev pub slots_of : {F : Type 0} → List (SearchResult F) → List ℕ
slots_of = map (λ r. r.slot)

module _ {F : Type 0} ⦃fl : Float F⦄ where
  -- Insertion in ascending order of distance. The source's heaps and sorts leave the order of equal
  -- distances open; here the newer one comes later.
  unfoldable pub push_min : SearchResult F → List (SearchResult F) → List (SearchResult F)
  push_min a [] = a ∷ []
  push_min a (b ∷ bs) = if fl.lt a.dist b.dist then a ∷ b ∷ bs else b ∷ push_min a bs

  -- Insertion in descending order, which is that of `results_pq`, and of the array `res` read from
  -- its end.
  unfoldable pub push_max : SearchResult F → List (SearchResult F) → List (SearchResult F)
  push_max a [] = a ∷ []
  push_max a (b ∷ bs) = if fl.lt a.dist b.dist then b ∷ push_max a bs else a ∷ b ∷ bs

  unfoldable pub sort_results : List (SearchResult F) → List (SearchResult F)
  unfolding push_min
  sort_results [] = []
  sort_results (a ∷ rest) = push_min a (sort_results rest)

  -- No selected slot is nearer to the candidate than the node is.
  unfoldable pub is_diverse : (ℕ → ℕ → F) → SearchResult F → List ℕ → Bool
  is_diverse between cand [] = true
  is_diverse between cand (s ∷ selected) =
      if fl.lt (between cand.slot s) cand.dist then false else is_diverse between cand selected

  unfoldable pub select_diverse : (ℕ → ℕ → F) → ℕ → List (SearchResult F) → List ℕ → List ℕ
  unfolding is_diverse
  select_diverse between m [] selected = selected
  select_diverse between m (cand ∷ rest) selected =
      let taken = select_diverse between m rest (selected ++ cand.slot ∷ []) in
      let passed = select_diverse between m rest selected in
      if leb m (length selected)
      then selected
      else if is_diverse between cand selected
      then taken
      else passed

  unfoldable pub select_neighbors_heuristic :
      List (SearchResult F) → ℕ → (ℕ → List F) → ℕ → Bool → List ℕ
  unfolding sort_results select_diverse l2
  select_neighbors_heuristic candidates m float_block dim use_avx2 =
      let sorted = sort_results candidates in
      let between = λ (a b : ℕ). l2 (float_block a) (float_block b) dim use_avx2 in
      let selected = select_diverse between m sorted [] in
      if ltb (length selected) m then take m (slots_of sorted) else selected

  -- The m closest, in ascending order if there are more.
  unfoldable pub select_closest : List (SearchResult F) → ℕ → List (SearchResult F)
  unfolding sort_results
  select_closest candidates m =
      if leb (length candidates) m then candidates else take m (sort_results candidates)
