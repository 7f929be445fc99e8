-- ===== src/Hnsw/Single.antt =====
-- include/redboxdb/hnsw_manager.hpp: `search_layer_1` and `hnsw_search_1`, which find one neighbour.
use red_box_db.Base.{
  Bool, List, [], drop, for_range, get_or, if◌then◌else◌, leb, length, ltb, max, min, set, suc,
  take, zero, ℕ, ◌&&◌, ◌++◌, ◌+◌, ◌-◌, ◌||◌, ◌∷◌,
}
use red_box_db.Floats.{Float}
use red_box_db.Distance.{l2}
use red_box_db.Storage.{Manager}
use red_box_db.Graph.{flag}
use red_box_db.Hnsw.{SearchResult, empty, level_start, m_max, push_max}
use red_box_db.Hnsw.Search.{Best, Visits, beats_top, beyond_top, descend, is_skipped, next_gen}

abbrev pub max_cand : ℕ
max_cand = 256

-- The array `cand` as it stands, the array `res` from its end, and the best slot so far.
pub record Single (F : Type 0) : Type 0 where
  pub cand : List (SearchResult F)
  pub res : List (SearchResult F)
  pub best : Best F
  pub buf : List ℕ

module _ {F : Type 0} ⦃fl : Float F⦄ where
  -- The index of the first of the nearest entries; `f` is read out of bounds, where no read is.
  unfoldable pub min_index : List (SearchResult F) → SearchResult F → ℕ
  unfolding for_range
  min_index cand f =
      for_range (length cand - 1) 1
        (λ i min_idx.
          if fl.lt (get_or cand i f).dist (get_or cand min_idx f).dist then i else min_idx)
        0

  -- `cand[i] = cand[--n_cand]`
  unfoldable pub swap_out : List (SearchResult F) → ℕ → SearchResult F → List (SearchResult F)
  swap_out cand i f = take (length cand - 1) (set cand i (get_or cand (length cand - 1) f))

  unfoldable pub meet_1 : (ℕ → F) → List Bool → ℕ → ℕ → ℕ → Single F → Single F
  unfolding is_skipped beats_top push_max
  meet_1 dist flags gen ef nb s =
      let r : SearchResult F = record { dist = dist nb; slot = nb } in
      let seen = record s { buf = set s.buf nb gen } in
      if is_skipped flags s.buf gen nb
      then s
      else if ltb (length s.res) ef || beats_top (dist nb) s.res
      then record {
        cand = if ltb (length s.cand) max_cand then s.cand ++ r ∷ [] else s.cand;
        res = if leb ef (length s.res) then push_max r (drop 1 s.res) else push_max r s.res;
        best = if fl.lt (dist nb) s.best.dist then record { slot = nb; dist = dist nb } else s.best;
        buf = set s.buf nb gen;
      }
      else seen

  unfoldable pub expand_1 : (ℕ → F) → List Bool → ℕ → ℕ → (ℕ → ℕ) → ℕ → ℕ → Single F → Single F
  unfolding meet_1 for_range
  expand_1 dist flags gen ef block lev mm s =
      for_range mm 0 (λ i s. meet_1 dist flags gen ef (block (lev + i)) s) s

  unfoldable pub single_loop :
      ℕ → (ℕ → F) → List Bool → ℕ → ℕ → (ℕ → ℕ) → (ℕ → ℕ) → ℕ → Single F → Single F
  unfolding expand_1 beyond_top min_index swap_out
  single_loop zero dist flags gen ef block start mm s = s
  single_loop (suc fuel) dist flags gen ef block start mm s = elim s.cand [
    | [] ↦ s
    | c ∷ cs ↦
        let i = min_index (c ∷ cs) c in
        let f = get_or (c ∷ cs) i c in
        let popped = record s { cand = swap_out (c ∷ cs) i c } in
        if leb ef (length s.res) && beyond_top f.dist s.res
        then popped
        else single_loop fuel dist flags gen ef block start mm
            (expand_1 dist flags gen ef block (start f.slot) mm popped)
  ]

  unfoldable pub entry_single : (ℕ → F) → List Bool → Visits → ℕ → Single F
  entry_single dist flags v entry =
      let r : SearchResult F = record { dist = dist entry; slot = entry } in
      record {
        cand = r ∷ [];
        res = if flag flags entry then [] else r ∷ [];
        best =
            if flag flags entry
            then record { slot = empty; dist = fl.max_value }
            else record { slot = entry; dist = dist entry };
        buf = set v.buf entry v.gen;
      }

  unfoldable pub search_layer_1 :
      List F → ℕ → ℕ → ℕ → Manager F → ℕ → Bool → List Bool → Visits → Best F
  unfolding next_gen entry_single single_loop level_start m_max l2
  search_layer_1 query entry ef level m dim use_avx2 flags visits =
      let dist = λ (s : ℕ). l2 query (m.float_block s) dim use_avx2 in
      let v = next_gen visits m.max_capacity in
      (single_loop (m.max_capacity + 1) dist flags v.gen (min ef max_cand) m.hnsw_edge_block
        (λ s. level_start s level m.hnsw_m) (m_max level m.hnsw_m)
        (entry_single dist flags v entry)).best

  -- The slot, or `empty`.
  unfoldable pub hnsw_search_1 : List F → Manager F → ℕ → Bool → List Bool → Visits → ℕ → ℕ
  unfolding descend search_layer_1
  hnsw_search_1 query m dim use_avx2 flags visits ef_override =
      let ef_search = if ltb 0 ef_override then ef_override else m.hnsw_ef_search in
      let curr = descend query m.hnsw_entry_point 0 m dim use_avx2 flags in
      (search_layer_1 query curr (max ef_search 1) 0 m dim use_avx2 flags visits).slot
