-- ===== src/Hnsw/Search.antt =====
-- include/redboxdb/hnsw_manager.hpp: the greedy descent and the beam searches of a level.
use red_box_db.Base.{
  Bool, List, [], drop, false, for_range, get_or, if◌then◌else◌, leb, length, ltb, map, max, not,
  replicate, reverse, set, suc, zero, ℕ, ◌&&◌, ◌*◌, ◌+◌, ◌-◌, ◌==◌, ◌||◌, ◌∷◌,
}
use red_box_db.Floats.{Float}
use red_box_db.Distance.{l2}
use red_box_db.Storage.{Manager}
use red_box_db.Graph.{flag}
use red_box_db.Hnsw.{SearchResult, empty, level_start, m_max, push_max, push_min}

-- `visited_buf` and `visit_gen`.
pub record Visits : Type 0 where
  pub buf : List ℕ
  pub gen : ℕ

-- A new generation, in which no slot is visited.
unfoldable pub next_gen : Visits → ℕ → Visits
next_gen v capacity =
    if leb 255 (v.gen + 1) || not (length v.buf == capacity)
    then record { buf = replicate capacity 0; gen = 1 }
    else record { buf = v.buf; gen = v.gen + 1 }

pub record Beam (F : Type 0) : Type 0 where
  pub cands : List (SearchResult F)
  pub results : List (SearchResult F)
  pub buf : List ℕ

-- What `search_layer_1` adds: the best slot so far and its distance.
pub record Best (F : Type 0) : Type 0 where
  pub slot : ℕ
  pub dist : F

-- A neighbour that the loops pass over.
unfoldable pub is_skipped : List Bool → List ℕ → ℕ → ℕ → Bool
is_skipped flags buf gen nb = nb == empty || flag flags nb || get_or buf nb 0 == gen

module _ {F : Type 0} ⦃fl : Float F⦄ where
  -- `results.top().dist > d`, on results that are not empty.
  unfoldable pub beats_top : F → List (SearchResult F) → Bool
  beats_top d [] = false
  beats_top d (top ∷ rest) = fl.lt d top.dist

  -- `f.dist > results.top().dist`
  unfoldable pub beyond_top : F → List (SearchResult F) → Bool
  beyond_top d [] = false
  beyond_top d (top ∷ rest) = fl.lt top.dist d

  -- Pushed, and popped if there are more than ef.
  unfoldable pub push_bounded : ℕ → SearchResult F → List (SearchResult F) → List (SearchResult F)
  unfolding push_max
  push_bounded ef a results =
      let pushed = push_max a results in if ltb ef (length pushed) then drop 1 pushed else pushed

  -- One neighbour in `search_layer`.
  unfoldable pub meet : (ℕ → F) → List Bool → ℕ → ℕ → ℕ → Beam F → Beam F
  unfolding is_skipped beats_top push_min push_bounded
  meet dist flags gen ef nb b =
      let r : SearchResult F = record { dist = dist nb; slot = nb } in
      if is_skipped flags b.buf gen nb
      then b
      else if ltb (length b.results) ef || beats_top (dist nb) b.results
      then record {
        cands = push_min r b.cands;
        results = push_bounded ef r b.results;
        buf = set b.buf nb gen;
      }
      else record b { buf = set b.buf nb gen }

  -- The neighbours of a slot, whose edges start at `lev`.
  unfoldable pub expand : (ℕ → F) → List Bool → ℕ → ℕ → (ℕ → ℕ) → ℕ → ℕ → Beam F → Beam F
  unfolding meet for_range
  expand dist flags gen ef block lev mm b =
      for_range mm 0 (λ i b. meet dist flags gen ef (block (lev + i)) b) b

  -- The loop of `search_layer`, on fuel. `start` gives the offset of a slot's edges.
  unfoldable pub beam_loop :
      ℕ → (ℕ → F) → List Bool → ℕ → ℕ → (ℕ → ℕ) → (ℕ → ℕ) → ℕ → Beam F → Beam F
  unfolding expand beyond_top
  beam_loop zero dist flags gen ef block start mm b = b
  beam_loop (suc fuel) dist flags gen ef block start mm b = elim b.cands [
    | [] ↦ b
    | f ∷ rest ↦
        if leb ef (length b.results) && beyond_top f.dist b.results
        then record b { cands = rest }
        else beam_loop fuel dist flags gen ef block start mm
            (expand dist flags gen ef block (start f.slot) mm (record b { cands = rest }))
  ]

  -- The beam of the entry slot.
  unfoldable pub entry_beam : (ℕ → F) → List Bool → Visits → ℕ → Beam F
  entry_beam dist flags v entry =
      let r : SearchResult F = record { dist = dist entry; slot = entry } in
      record {
        cands = r ∷ [];
        results = if flag flags entry then [] else r ∷ [];
        buf = set v.buf entry v.gen;
      }

  -- `search_layer`: the results in ascending order, and the buffer. Each slot is a candidate at
  -- most once, so `capacity + 1` rounds are enough.
  unfoldable pub search_layer :
      List F
      → ℕ
      → ℕ
      → ℕ
      → Manager F
      → ℕ
      → Bool
      → List Bool
      → Visits
      → List (SearchResult F) × Visits
  unfolding next_gen entry_beam beam_loop level_start m_max l2
  search_layer query entry ef level m dim use_avx2 flags visits =
      let dist = λ (s : ℕ). l2 query (m.float_block s) dim use_avx2 in
      let v = next_gen visits m.max_capacity in
      let b =
        beam_loop (m.max_capacity + 1) dist flags v.gen ef m.hnsw_edge_block
          (λ s. level_start s level m.hnsw_m) (m_max level m.hnsw_m)
          (entry_beam dist flags v entry) in
      (reverse b.results, record { buf = b.buf; gen = v.gen })

  -- One neighbour of the greedy descent.
  unfoldable pub closer_neighbor : (ℕ → F) → List Bool → ℕ → Best F → Best F
  closer_neighbor dist flags nb b =
      if nb == empty || flag flags nb
      then b
      else if fl.lt (dist nb) b.dist
      then record { slot = nb; dist = dist nb }
      else b

  unfoldable pub best_neighbor : (ℕ → F) → List Bool → (ℕ → ℕ) → ℕ → ℕ → F → Best F
  unfolding closer_neighbor for_range
  best_neighbor dist flags block lev mm curr_dist =
      for_range mm 0 (λ i b. closer_neighbor dist flags (block (lev + i)) b)
        (record { slot = empty; dist = curr_dist })

  -- `while (improved)`, on fuel.
  unfoldable pub improve : ℕ → (ℕ → F) → List Bool → (ℕ → ℕ) → (ℕ → ℕ) → ℕ → ℕ → F → ℕ
  unfolding best_neighbor
  improve zero dist flags block start mm curr curr_dist = curr
  improve (suc fuel) dist flags block start mm curr curr_dist =
      let b = best_neighbor dist flags block (start curr) mm curr_dist in
      let moved = improve fuel dist flags block start mm b.slot b.dist in
      if b.slot == empty then curr else moved

  -- The descent from the top level to the level above `level`. A move leads to a strictly nearer
  -- slot, so as many rounds as there are slots are enough.
  unfoldable pub descend : List F → ℕ → ℕ → Manager F → ℕ → Bool → List Bool → ℕ
  unfolding improve for_range level_start m_max l2
  descend query entry level m dim use_avx2 flags =
      let dist = λ (s : ℕ). l2 query (m.float_block s) dim use_avx2 in
      for_range (m.hnsw_max_level - level) 0
        (λ i curr.
          let l = m.hnsw_max_level - i in
          improve (m.vector_count + 1) dist flags m.hnsw_edge_block (λ s. level_start s l m.hnsw_m)
            (m_max l m.hnsw_m) curr (dist curr))
        entry

  -- `ef` is an int, and from 2^29 on its product by 4 overflows, which the language leaves undefined:
  -- there this answers with nothing.
  unfoldable pub hnsw_search :
      List F → ℕ → Manager F → ℕ → Bool → List Bool → Visits → List (F × ℕ) × Visits
  unfolding descend search_layer
  hnsw_search query n m dim use_avx2 flags visits =
      let curr = descend query m.hnsw_entry_point 0 m dim use_avx2 flags in
      let ef = max m.hnsw_ef_search n in
      let (results, v) = search_layer query curr (ef * 4) 0 m dim use_avx2 flags visits in
      if leb 536870912 ef then ([], visits) else (map (λ r. (r.dist, r.slot)) results, v)
