-- ===== src/Hnsw/Found.antt =====
-- What the searches of include/redboxdb/hnsw_manager.hpp find.
use red_box_db.Base.{
  Bool, Bool-cases, List, for_range_inv, inl, inr, refl, reverse-All, ℕ, ◌+◌, ◌-◌, ◌<◌, ◌≡◌, ◌⊎◌,
}
use red_box_db.Floats.{Float}
use red_box_db.Distance.{l2}
use red_box_db.Storage.{Manager}
use red_box_db.Graph.{flag}
use red_box_db.Hnsw.{empty, level_start, m_max}
use red_box_db.Hnsw.Search.{Visits, descend, entry_beam, next_gen, search_layer}
use red_box_db.Hnsw.Single.{entry_single, hnsw_search_1, search_layer_1}
use red_box_db.Hnsw.Choice.{AllSlots}
use red_box_db.Hnsw.Links.{InRange, Linked, Live, beam_loop-InRange, improve-lt}
use red_box_db.Hnsw.Singles.{SingleInRange, single_loop-InRange}

module _ {F : Type 0} ⦃fl : Float F⦄ (m : Manager F) (dim : ℕ) (use_avx2 : Bool)
    (flags : List Bool) where
  pub descend-lt :
      (query : List F) (entry level : ℕ)
      → Linked m.vector_count m.hnsw_edge_block
      → entry < m.vector_count
      → descend query entry level m dim use_avx2 flags < m.vector_count
  unfolding descend
  descend-lt query entry level linked lt =
      let dist = λ (s : ℕ). l2 query (m.float_block s) dim use_avx2 in
      for_range_inv (λ _ s. s < m.vector_count) _ (m.hnsw_max_level - level) entry
        (λ i s k h.
          let l = m.hnsw_max_level - i in
          improve-lt m.vector_count flags dist (m.vector_count + 1) m.hnsw_edge_block
            (λ t. level_start t l m.hnsw_m) (m_max l m.hnsw_m) s (dist s) linked h)
        lt

  pub search_layer-Live :
      (query : List F) (entry ef level : ℕ) (visits : Visits)
      → Linked m.vector_count m.hnsw_edge_block
      → entry < m.vector_count
      → AllSlots
          (Live m.vector_count flags)
          (search_layer query entry ef level m dim use_avx2 flags visits).0
  unfolding search_layer entry_beam
  search_layer-Live query entry ef level visits linked lt =
      let start : InRange m.vector_count flags (λ s. l2 query (m.float_block s) dim use_avx2)
          (entry_beam (λ s. l2 query (m.float_block s) dim use_avx2) flags
            (next_gen visits m.max_capacity) entry) =
        record {
          cands = (lt, tt);
          results = elim (Bool-cases (flag flags entry)) [
            | inl dead ↦ rw dead tt
            | inr live ↦ rw live ((lt, live), tt)
          ];
        } in
      reverse-All _ _
        (beam_loop-InRange m.vector_count flags _ (m.max_capacity + 1) _ ef m.hnsw_edge_block _ _ _
          linked start).results

  -- In a graph whose edges and entry point lead to slots in use, `hnsw_search_1` answers with
  -- `EMPTY`, or with a slot in use that is not deleted.
  pub hnsw_search_1-Live :
      (query : List F) (visits : Visits) (ef : ℕ)
      → Linked m.vector_count m.hnsw_edge_block
      → m.hnsw_entry_point < m.vector_count
      → let s = hnsw_search_1 query m dim use_avx2 flags visits ef in
        (s ≡ empty) ⊎ Live m.vector_count flags s
  unfolding hnsw_search_1 search_layer_1 entry_single
  hnsw_search_1-Live query visits ef linked lt =
      let curr = descend query m.hnsw_entry_point 0 m dim use_avx2 flags in
      let dist = λ (s : ℕ). l2 query (m.float_block s) dim use_avx2 in
      let below = descend-lt query m.hnsw_entry_point 0 linked lt in
      let start : SingleInRange m.vector_count flags dist
          (entry_single dist flags (next_gen visits m.max_capacity) curr) =
        record {
          cand = (below, tt);
          best = elim (Bool-cases (flag flags curr)) [
            | inl dead ↦ rw dead (inl refl)
            | inr live ↦ rw live (inr (below, live))
          ];
        } in
      (single_loop-InRange m.vector_count flags dist (m.max_capacity + 1) _ _ m.hnsw_edge_block _ _
        _ linked start).best
