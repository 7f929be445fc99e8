-- ===== src/Hnsw/Insert.antt =====
-- include/redboxdb/hnsw_manager.hpp: `hnsw_insert`.
use red_box_db.Base.{
  Bool, List, [], for_range, get_or, if◌then◌else◌, ltb, min, suc, true, update_map, zero, ℕ, ◌+◌,
  ◌-◌, ◌==◌, ◌∷◌,
}
use red_box_db.Floats.{Float}
use red_box_db.Distance.{l2}
use red_box_db.Storage.Size.{max_level}
use red_box_db.Storage.{Manager}
use red_box_db.Hnsw.{
  SearchResult, append_neighbor, empty, level_edge_count, level_start, m_max,
  select_neighbors_heuristic, set_neighbors,
}
use red_box_db.Hnsw.Search.{Visits, descend, search_layer}

-- What the insertions of an engine share: the levels that `compute_level` draws, how many are
-- drawn, and the visits.
pub record Shared : Type 0 where
  pub levels : ℕ → ℕ
  pub drawn : ℕ
  pub visits : Visits

-- A level's part of an insertion: the edges, the slot to search from, and the visits.
pub record Wiring : Type 0 where
  pub block : ℕ → ℕ
  pub curr : ℕ
  pub visits : Visits

module _ {F : Type 0} ⦃fl : Float F⦄ where
  -- The candidates of a full neighbour: the new slot, then its edges.
  unfoldable pub edge_cands : (ℕ → F) → (ℕ → ℕ) → ℕ → ℕ → List (SearchResult F)
  edge_cands dist block lev zero = []
  edge_cands dist block lev (suc rounds) =
      let rest = edge_cands dist block (lev + 1) rounds in
      if block lev == empty
      then rest
      else record { dist = dist (block lev); slot = block lev } ∷ rest

  -- The edge back from a neighbour.
  unfoldable pub connect : Manager F → ℕ → Bool → ℕ → ℕ → (ℕ → ℕ) → ℕ → ℕ → ℕ
  unfolding edge_cands level_edge_count append_neighbor set_neighbors select_neighbors_heuristic
      level_start m_max l2
  connect m dim use_avx2 slot l block nb =
      let mm = m_max l m.hnsw_m in
      let lev = level_start nb l m.hnsw_m in
      let dist = λ (s : ℕ). l2 (m.float_block nb) (m.float_block s) dim use_avx2 in
      let nb_cands = record { dist = dist slot; slot = slot } ∷ edge_cands dist block lev mm in
      if ltb (level_edge_count block lev mm) mm
      then append_neighbor block nb l m.hnsw_m slot
      else set_neighbors block nb l m.hnsw_m
          (select_neighbors_heuristic nb_cands mm m.float_block dim use_avx2)

  unfoldable pub connect_all : Manager F → ℕ → Bool → ℕ → ℕ → List ℕ → (ℕ → ℕ) → ℕ → ℕ
  unfolding connect
  connect_all m dim use_avx2 slot l [] block = block
  connect_all m dim use_avx2 slot l (nb ∷ selected) block =
      connect_all m dim use_avx2 slot l selected (connect m dim use_avx2 slot l block nb)

  -- One level of the second phase.
  unfoldable pub wire_level : Manager F → List F → ℕ → Bool → List Bool → ℕ → ℕ → Wiring → Wiring
  unfolding search_layer select_neighbors_heuristic set_neighbors connect_all m_max
  wire_level m vec dim use_avx2 flags slot l w =
      let now = record m { hnsw_edge_block = w.block } in
      let (results, v) =
        search_layer vec w.curr m.hnsw_ef_construction l now dim use_avx2 flags w.visits in
      let selected =
        select_neighbors_heuristic results (m_max l m.hnsw_m) m.float_block dim use_avx2 in
      let own = set_neighbors w.block slot l m.hnsw_m selected in
      record {
        block = connect_all m dim use_avx2 slot l selected own;
        curr = get_or selected 0 w.curr;
        visits = v;
      }

  -- The second phase: from the level `top` down to 0.
  unfoldable pub wire : Manager F → List F → ℕ → Bool → List Bool → ℕ → ℕ → Wiring → Wiring
  unfolding wire_level for_range
  wire m vec dim use_avx2 flags slot top w =
      for_range (top + 1) 0 (λ i w. wire_level m vec dim use_avx2 flags slot (top - i) w) w

  -- The entry point and the highest level.
  unfoldable pub raise_entry : Manager F → ℕ → ℕ → Manager F
  raise_entry m slot level =
      if ltb m.hnsw_max_level level
      then record m { header = record m.header { hnsw_entry_point = slot; hnsw_max_level = level } }
      else m

  -- The first node becomes the entry point.
  unfoldable pub first_insert : ℕ → Manager F → Manager F
  first_insert slot m = record m {
    header = record m.header { hnsw_entry_point = slot; hnsw_max_level = 0; is_initialized = true };
    hnsw_level_block = update_map m.hnsw_level_block slot 0;
  }

  -- A later node, at the level that is drawn for it.
  unfoldable pub later_insert :
      ℕ → List F → Manager F → ℕ → Bool → List Bool → Shared → Manager F × Shared
  unfolding descend wire raise_entry
  later_insert slot vec m dim use_avx2 flags g =
      let level = min (g.levels g.drawn) max_level in
      let levelled = record m { hnsw_level_block = update_map m.hnsw_level_block slot level } in
      let curr = descend vec m.hnsw_entry_point level levelled dim use_avx2 flags in
      let w =
        wire levelled vec dim use_avx2 flags slot (min level m.hnsw_max_level)
          (record { block = m.hnsw_edge_block; curr = curr; visits = g.visits }) in
      (
        raise_entry (record levelled { hnsw_edge_block = w.block }) slot level,
        record { levels = g.levels; drawn = g.drawn + 1; visits = w.visits },
      )

  unfoldable pub hnsw_insert :
      ℕ → List F → Manager F → ℕ → Bool → List Bool → Shared → Manager F × Shared
  unfolding first_insert later_insert
  hnsw_insert slot vec m dim use_avx2 flags g =
      if m.is_initialized
      then later_insert slot vec m dim use_avx2 flags g
      else (first_insert slot m, g)
