-- ===== src/Hnsw/Ordered.antt =====
-- The results of `search_layer` and `hnsw_search` (include/redboxdb/hnsw_manager.hpp).
use red_box_db.Base.{
  All, All-mono, Bool, Bool-cases, List, Pairwise, arith, false, get_or, get_or-set, inl, inr,
  length, length-replicate, length-reverse, length-set, map, max, refl, reverse, reverse-All,
  reverse-Pairwise, set, ℕ, ◌*◌, ◌+◌, ◌<◌, ◌≡◌, ◌≢◌, ◌≤◌,
}
use red_box_db.Floats.{Float}
use red_box_db.Distance.{l2}
use red_box_db.Storage.{Manager}
use red_box_db.Graph.{flag}
use red_box_db.Hnsw.{SearchResult}
use red_box_db.Hnsw.Search.{Beam, Visits, descend, entry_beam, hnsw_search, next_gen, search_layer}
use red_box_db.Hnsw.Choice.{AllSlots}
use red_box_db.Hnsw.Links.{Linked, Live}
use red_box_db.Hnsw.Beams.{AreNumbers, Before, IsBeam, beam_loop-IsBeam}
use red_box_db.Hnsw.Found.{descend-lt}

-- The generation of a search is not 0, and the buffer has a byte for each slot.
pub length-next_gen : (v : Visits) (capacity : ℕ) → length (next_gen v capacity).buf ≡ capacity
unfolding next_gen
length-next_gen v capacity = ground (arith, length-replicate {A = ℕ} capacity 0)

module _ {F : Type 0} ⦃fl : Float F⦄ (n : ℕ) (flags : List Bool) (dist : ℕ → F) where
  -- At most `ef` results: live slots, each once and with its distance, and none behind a more distant
  -- one.
  pub record IsFound (ef : ℕ) (rs : List (SearchResult F)) : Type 0 where
    pub live : AllSlots (Live n flags) rs
    pub exact : All (λ r. r.dist ≡ dist r.slot) rs
    pub ascending : Pairwise (λ a b. (fl.lt b.dist a.dist ≡ false) × (b.slot ≢ a.slot)) rs
    pub few : length rs ≤ ef

  entry_beam-IsBeam :
      (ef entry : ℕ) (v : Visits)
      → 0 < ef
      → entry < n
      → n ≤ length v.buf
      → IsBeam n flags dist v.gen ef (entry_beam dist flags v entry)
  unfolding entry_beam
  entry_beam-IsBeam ef entry v pos lt sized =
      let seen : get_or (set v.buf entry v.gen) entry 0 ≡ v.gen =
        ground (arith, get_or-set v.buf entry entry v.gen 0) in
      let kept : n ≤ length (set v.buf entry v.gen) =
        omega (arith, sized, length-set v.buf entry v.gen) in
      elim (Bool-cases (flag flags entry)) [
        | inl dead ↦ rw dead (record {
          sized = kept;
          cands = (lt, tt);
          results = tt;
          ordered = tt;
          few = omega arith;
        })
        | inr live ↦ rw live (record {
          sized = kept;
          cands = (lt, tt);
          results = ((refl, (lt, live), seen), tt);
          ordered = (tt, tt);
          few = omega arith;
        })
      ]

  IsBeam-IsFound :
      (gen ef : ℕ) (b : Beam F) → IsBeam n flags dist gen ef b → IsFound ef (reverse b.results)
  IsBeam-IsFound gen ef b h = record {
    live =
        reverse-All (λ r. Live n flags r.slot) b.results
          (All-mono b.results (λ r k. k.1) h.results);
    exact =
        reverse-All (λ r. r.dist ≡ dist r.slot) b.results
          (All-mono b.results (λ r k. k.0) h.results);
    ascending = reverse-Pairwise Before b.results h.ordered;
    few = omega (arith, length-reverse b.results, h.few);
  }

module _ {F : Type 0} ⦃fl : Float F⦄ (m : Manager F) (dim : ℕ) (use_avx2 : Bool) (flags : List Bool)
    (query : List F) where
  abbrev pub dist_to : ℕ → F
  dist_to s = l2 query (m.float_block s) dim use_avx2

  search_layer-IsFound :
      (entry ef level : ℕ) (visits : Visits)
      → AreNumbers m.vector_count dist_to
      → Linked m.vector_count m.hnsw_edge_block
      → m.vector_count ≤ m.max_capacity
      → entry < m.vector_count
      → 0 < ef
      → IsFound m.vector_count flags dist_to ef
          (search_layer query entry ef level m dim use_avx2 flags visits).0
  unfolding search_layer
  search_layer-IsFound entry ef level visits nums linked within lt pos =
      let v = next_gen visits m.max_capacity in
      let sized : m.vector_count ≤ length v.buf =
        omega (arith, within, length-next_gen visits m.max_capacity) in
      IsBeam-IsFound m.vector_count flags dist_to v.gen ef _ (
        beam_loop-IsBeam m.vector_count flags dist_to v.gen ef (m.max_capacity + 1)
          m.hnsw_edge_block _ _ _ nums linked
          (entry_beam-IsBeam m.vector_count flags dist_to ef entry v pos lt sized))

  -- In a graph whose edges and entry point lead to slots in use, at distances that are numbers,
  -- hnsw_search for at least one and fewer than 2^29 neighbours, with hnsw_ef_search a number of 16
  -- bits, answers with live slots, each once and with its distance, in ascending order of distance,
  -- and with at most four times the larger of hnsw_ef_search and the number asked for.
  pub hnsw_search-IsFound :
      (count : ℕ) (visits : Visits)
      → AreNumbers m.vector_count dist_to
      → Linked m.vector_count m.hnsw_edge_block
      → m.vector_count ≤ m.max_capacity
      → m.hnsw_entry_point < m.vector_count
      → 0 < count
      → count < 536870912
      → m.hnsw_ef_search < 65536
      → (rs : List (SearchResult F)) × IsFound m.vector_count flags dist_to
          (max m.hnsw_ef_search count * 4)
          rs
        × ((hnsw_search query count m dim use_avx2 flags visits).0 ≡ map (λ r. (r.dist, r.slot)) rs)
  unfolding hnsw_search
  hnsw_search-IsFound count visits nums linked within lt pos few short =
      let curr = descend query m.hnsw_entry_point 0 m dim use_avx2 flags in
      let ef = max m.hnsw_ef_search count * 4 in
      (
        (search_layer query curr ef 0 m dim use_avx2 flags visits).0,
        search_layer-IsFound curr ef 0 visits nums linked within
            (descend-lt m dim use_avx2 flags query m.hnsw_entry_point 0 linked lt) (omega arith),
        ground arith,
      )
