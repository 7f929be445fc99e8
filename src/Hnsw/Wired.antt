-- ===== src/Hnsw/Wired.antt =====
-- `hnsw_insert` of include/redboxdb/hnsw_manager.hpp keeps the edges among the slots in use.
use red_box_db.Base.{
  All, All-mono, Bool, Bool-cases, List, [], arith, for_range_inv, get_or, get_or-All, if_elim, inl,
  inr, ltb, refl, suc, update_map, zero, ℕ, ◌+◌, ◌-◌, ◌<◌, ◌==◌, ◌∷◌, ◌≡◌, ◌⊎◌,
}
use red_box_db.Floats.{Float}
use red_box_db.Distance.{l2}
use red_box_db.Storage.{Manager}
use red_box_db.Graph.{IsLinked, SameRows}
use red_box_db.Hnsw.{
  SearchResult, append_at, append_neighbor, empty, level_edge_count, level_start, m_max,
  select_neighbors_heuristic, set_neighbors,
}
use red_box_db.Hnsw.Insert.{Wiring, connect, connect_all, edge_cands, raise_entry, wire, wire_level}
use red_box_db.Hnsw.Choice.{AllSlots, select_neighbors_heuristic-All}
use red_box_db.Hnsw.Links.{Linked}
use red_box_db.Hnsw.Found.{search_layer-Live}
use red_box_db.Hnsw.Search.{search_layer}

module _ (n : ℕ) where
  update-Linked :
      (block : ℕ → ℕ) (i v : ℕ)
      → (v ≡ empty) ⊎ (v < n)
      → Linked n block
      → Linked n (update_map block i v)
  update-Linked block i v in_use h j = elim (Bool-cases (i == j)) [
    | inl same ↦ rw same in_use
    | inr other ↦ rw other (h j)
  ]

  set_neighbors-Linked :
      (block : ℕ → ℕ) (slot level m : ℕ) (neighbors : List ℕ)
      → All (λ s. s < n) neighbors
      → Linked n block
      → Linked n (set_neighbors block slot level m neighbors)
  unfolding set_neighbors
  set_neighbors-Linked block slot level m neighbors in_use h =
      for_range_inv (λ _ b. Linked n b) _ (m_max level m) block
        (λ i b lt k.
          update-Linked b (level_start slot level m + i) (get_or neighbors i empty)
            (get_or-All (λ s. (s ≡ empty) ⊎ (s < n)) neighbors i empty
              (All-mono neighbors (λ s l. inr l) in_use) (inl refl))
            k)
        h

  append_at-Linked :
      (rounds : ℕ) (block : ℕ → ℕ) (place v : ℕ)
      → v < n
      → Linked n block
      → Linked n (append_at rounds block place v)
  unfolding append_at
  append_at-Linked zero block place v lt h = h
  append_at-Linked (suc rounds) block place v lt h = elim (Bool-cases (block place == empty)) [
    | inl free ↦ rw free (update-Linked block place v (inr lt) h)
    | inr used ↦ rw used (append_at-Linked rounds block (place + 1) v lt h)
  ]

  append_neighbor-Linked :
      (block : ℕ → ℕ) (slot level m v : ℕ)
      → v < n
      → Linked n block
      → Linked n (append_neighbor block slot level m v)
  unfolding append_neighbor
  append_neighbor-Linked block slot level m v = append_at-Linked (m_max level m) block _ v

  module _ {F : Type 0} ⦃fl : Float F⦄ (m : Manager F) (dim : ℕ) (use_avx2 : Bool) where
    edge_cands-All :
        (dist : ℕ → F) (block : ℕ → ℕ) (lev rounds : ℕ)
        → Linked n block
        → AllSlots (λ s. s < n) (edge_cands dist block lev rounds)
    unfolding edge_cands
    edge_cands-All dist block lev zero h = tt
    edge_cands-All dist block lev (suc rounds) h = elim (Bool-cases (block lev == empty)) [
      | inl free ↦ rw free (edge_cands-All dist block (lev + 1) rounds h)
      | inr used ↦
          let lt : block lev < n = ground (arith, h lev) in
          rw used (lt, edge_cands-All dist block (lev + 1) rounds h)
    ]

    connect-Linked :
        (slot l : ℕ) (block : ℕ → ℕ) (nb : ℕ)
        → slot < n
        → Linked n block
        → Linked n (connect m dim use_avx2 slot l block nb)
    unfolding connect
    connect-Linked slot l block nb lt h =
        let mm = m_max l m.hnsw_m in
        let lev = level_start nb l m.hnsw_m in
        let dist = λ (s : ℕ). l2 (m.float_block nb) (m.float_block s) dim use_avx2 in
        let nb_cands : List (SearchResult F) =
          record { dist = dist slot; slot = slot } ∷ edge_cands dist block lev mm in
        let cands_below : AllSlots (λ s. s < n) nb_cands =
          (lt, edge_cands-All dist block lev mm h) in
        let pruned =
          select_neighbors_heuristic-All (λ s. s < n) nb_cands mm m.float_block dim use_avx2
            cands_below in
        elim (Bool-cases (ltb (level_edge_count block lev mm) mm)) [
          | inl room ↦ rw room (append_neighbor-Linked block nb l m.hnsw_m slot lt h)
          | inr full ↦ rw full (set_neighbors-Linked block nb l m.hnsw_m _ pruned h)
        ]

    connect_all-Linked :
        (slot l : ℕ) (selected : List ℕ) (block : ℕ → ℕ)
        → slot < n
        → Linked n block
        → Linked n (connect_all m dim use_avx2 slot l selected block)
    unfolding connect_all
    connect_all-Linked slot l [] block lt h = h
    connect_all-Linked slot l (nb ∷ selected) block lt h =
        connect_all-Linked slot l selected _ lt (connect-Linked slot l block nb lt h)

module _ {F : Type 0} ⦃fl : Float F⦄ (m : Manager F) (dim : ℕ) (use_avx2 : Bool)
    (flags : List Bool) where
  -- The edges and the slot to search from are among the slots in use.
  pub record IsWired (w : Wiring) : Type 0 where
    pub linked : Linked m.vector_count w.block
    pub from : w.curr < m.vector_count

  wire_level-IsWired :
      (vec : List F) (slot l : ℕ) (w : Wiring)
      → slot < m.vector_count
      → IsWired w
      → IsWired (wire_level m vec dim use_avx2 flags slot l w)
  unfolding wire_level
  wire_level-IsWired vec slot l w lt h =
      let now = record m { hnsw_edge_block = w.block } in
      let n = m.vector_count in
      let results =
        (search_layer vec w.curr m.hnsw_ef_construction l now dim use_avx2 flags w.visits).0 in
      let selected =
        select_neighbors_heuristic results (m_max l m.hnsw_m) m.float_block dim use_avx2 in
      let found =
        search_layer-Live now dim use_avx2 flags vec w.curr m.hnsw_ef_construction l w.visits
          h.linked h.from in
      let chosen : All (λ s. s < n) selected =
        select_neighbors_heuristic-All (λ s. s < n) results (m_max l m.hnsw_m) m.float_block dim
          use_avx2 (All-mono results (λ r live. live.0) found) in
      record {
        linked =
            connect_all-Linked n m dim use_avx2 slot l selected _ lt
              (set_neighbors-Linked n w.block slot l m.hnsw_m selected chosen h.linked);
        from = get_or-All (λ s. s < n) selected 0 w.curr chosen h.from;
      }

  pub wire-IsWired :
      (vec : List F) (slot top : ℕ) (w : Wiring)
      → slot < m.vector_count
      → IsWired w
      → IsWired (wire m vec dim use_avx2 flags slot top w)
  unfolding wire
  wire-IsWired vec slot top w lt h =
      for_range_inv (λ _ w. IsWired w) _ (top + 1) w
        (λ i w k h. wire_level-IsWired vec slot (top - i) w lt h) h

  pub raise_entry-IsLinked :
      (slot level : ℕ)
      → slot < m.vector_count
      → m.hnsw_entry_point < m.vector_count
      → Linked m.vector_count m.hnsw_edge_block
      → IsLinked (raise_entry m slot level)
  unfolding raise_entry
  raise_entry-IsLinked slot level lt entry linked =
      if_elim (λ r. IsLinked r) (ltb m.hnsw_max_level level) _ m
        (λ higher. record { edges = linked; entry = λ _. lt })
        (λ lower. record { edges = linked; entry = λ _. entry })

  pub raise_entry-SameRows : (slot level : ℕ) → SameRows m (raise_entry m slot level)
  unfolding raise_entry
  raise_entry-SameRows slot level = elim (Bool-cases (ltb m.hnsw_max_level level)) [
    | inl higher ↦ rw higher (record {
      count = refl;
      capacity = refl;
      dims = refl;
      ids = refl;
      floats = refl;
      kind = refl;
      auto = refl;
    })
    | inr lower ↦ rw lower (record {
      count = refl;
      capacity = refl;
      dims = refl;
      ids = refl;
      floats = refl;
      kind = refl;
      auto = refl;
    })
  ]
