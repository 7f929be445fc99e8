-- ===== src/Hnsw/Fuel.antt =====
-- The rounds of the loops of include/redboxdb/hnsw_manager.hpp: the beams and the greedy descent end
-- by themselves.
use red_box_db.Base.{
  Bool, Bool-cases, List, List-cases, [], ap, arith, false, for_range_inv, get_or, if◌then◌else◌,
  inl, inr, leb, length, length-append, length-set, length-take, ltb, refl, set, suc, true, zero, ℕ,
  ◌&&◌, ◌++◌, ◌+◌, ◌-◌, ◌<◌, ◌==◌, ◌||◌, ◌∷◌, ◌≡◌, ◌≢◌, ◌≤◌, ◌⊎◌,
}
use red_box_db.Floats.{Float}
use red_box_db.Hnsw.{SearchResult, empty, level_start, m_max, push_min}
use red_box_db.Hnsw.Search.{
  Beam, Best, Visits, beam_loop, beats_top, best_neighbor, beyond_top, closer_neighbor, entry_beam,
  expand, improve, is_skipped, meet, next_gen,
}
use red_box_db.Hnsw.Links.{Linked, unskipped-Live}
use red_box_db.Hnsw.Single.{
  Single, entry_single, expand_1, max_cand, meet_1, min_index, single_loop, swap_out,
}
use red_box_db.Storage.{Manager}
use red_box_db.Hnsw.Ordered.{dist_to, length-next_gen}

-- The bytes of the buffer that are not of the generation.
abbrev unmarked : ℕ → List ℕ → ℕ
unmarked gen [] = 0
unmarked gen (v ∷ buf) = (if v == gen then 0 else 1) + unmarked gen buf

unmarked-le-length : (gen : ℕ) (buf : List ℕ) → unmarked gen buf ≤ length buf
unmarked-le-length gen [] = omega arith
unmarked-le-length gen (v ∷ buf) = ground (arith, unmarked-le-length gen buf)

-- A first visit marks one of them.
unmarked-set :
    (gen : ℕ) (buf : List ℕ) (i : ℕ)
    → i < length buf
    → get_or buf i 0 ≢ gen
    → unmarked gen (set buf i gen) + 1 ≡ unmarked gen buf
unmarked-set gen [] i lt new = absurd (omega arith)
unmarked-set gen (v ∷ buf) zero lt new = ground arith
unmarked-set gen (v ∷ buf) (suc i) lt new = ground (arith, unmarked-set gen buf i)

unskipped_first :
    (flags : List Bool) (gen nb : ℕ) (buf : List ℕ)
    → is_skipped flags buf gen nb ≡ false
    → get_or buf nb 0 ≢ gen
unfolding is_skipped
unskipped_first flags gen nb buf met = ground (arith, met)

module _ {F : Type 0} ⦃fl : Float F⦄ where
  length-push_min :
      (a : SearchResult F) (rs : List (SearchResult F)) → length (push_min a rs) ≡ suc (length rs)
  unfolding push_min
  length-push_min a [] = refl
  length-push_min a (b ∷ bs) = ground (arith, length-push_min a bs)

module _ {F : Type 0} ⦃fl : Float F⦄ (n : ℕ) (flags : List Bool) (dist : ℕ → F) (gen ef : ℕ) where
  -- Candidates that wait, and slots that may become some: each round takes one of them away.
  abbrev Load : ℕ → Beam F → Type 0
  Load k b = (length b.cands + unmarked gen b.buf ≤ k) × (n ≤ length b.buf)

  meet-Load :
      (k nb : ℕ) (b : Beam F)
      → (nb ≡ empty) ⊎ (nb < n)
      → Load k b
      → Load k (meet dist flags gen ef nb b)
  unfolding meet
  meet-Load k nb b l h = elim (Bool-cases (is_skipped flags b.buf gen nb)) [
    | inl skipped ↦ rw skipped h
    | inr met ↦
        let live = unskipped-Live n flags b.buf gen nb l met in
        let fewer : unmarked gen (set b.buf nb gen) + 1 ≡ unmarked gen b.buf =
          unmarked-set gen b.buf nb (omega (arith, live.0, h.1))
            (unskipped_first flags gen nb b.buf met) in
        let r : SearchResult F = record { dist = dist nb; slot = nb } in
        elim (Bool-cases (ltb (length b.results) ef || beats_top (dist nb) b.results)) [
          | inl near ↦
              rw (met, near)
                (
                  omega (arith, fewer, length-push_min r b.cands, h.0),
                  omega (arith, length-set b.buf nb gen, h.1),
                )
          | inr far ↦
              rw (met, far) (omega (arith, fewer, h.0), omega (arith, length-set b.buf nb gen, h.1))
        ]
  ]

  beam_loop_steady :
      (fuel more : ℕ) (block start : ℕ → ℕ) (mm : ℕ) (b : Beam F) (k : ℕ)
      → Linked n block
      → Load k b
      → k < fuel
      → k < more
      → beam_loop fuel dist flags gen ef block start mm b
        ≡ beam_loop more dist flags gen ef block start mm b
  unfolding beam_loop expand
  beam_loop_steady zero more block start mm b k linked h lt lt' = absurd (omega arith)
  beam_loop_steady (suc fuel) zero block start mm b k linked h lt lt' = absurd (omega arith)
  beam_loop_steady (suc fuel) (suc more) block start mm b k linked h lt lt' =
      elim (List-cases b.cands) [
        | inl none_left ↦ rw none_left refl
        | inr (f, rest, e) ↦
            let popped : Load (k - 1) (record b { cands = rest }) =
              (omega (arith, ap length e, h.0), h.1) in
            let some_left : 0 < k = omega (arith, ap length e, h.0) in
            elim (Bool-cases (leb ef (length b.results) && beyond_top f.dist b.results)) [
              | inl stop ↦ rw (e, stop) refl
              | inr go ↦
                  rw (e, go)
                    (beam_loop_steady fuel more block start mm _ (k - 1) linked
                      (for_range_inv (λ _ b. Load (k - 1) b) _ mm _
                        (λ i b lt h.
                          meet-Load (k - 1) (block (start f.slot + i)) b (linked (start f.slot + i))
                            h)
                        popped)
                      (omega (arith, some_left)) (omega (arith, some_left)))
            ]
      ]

  abbrev SingleLoad : ℕ → Single F → Type 0
  SingleLoad k s = (length s.cand + unmarked gen s.buf ≤ k) × (n ≤ length s.buf)

  meet_1-SingleLoad :
      (k nb : ℕ) (s : Single F)
      → (nb ≡ empty) ⊎ (nb < n)
      → SingleLoad k s
      → SingleLoad k (meet_1 dist flags gen ef nb s)
  unfolding meet_1
  meet_1-SingleLoad k nb s l h = elim (Bool-cases (is_skipped flags s.buf gen nb)) [
    | inl skipped ↦ rw skipped h
    | inr met ↦
        let live = unskipped-Live n flags s.buf gen nb l met in
        let fewer : unmarked gen (set s.buf nb gen) + 1 ≡ unmarked gen s.buf =
          unmarked-set gen s.buf nb (omega (arith, live.0, h.1))
            (unskipped_first flags gen nb s.buf met) in
        let r : SearchResult F = record { dist = dist nb; slot = nb } in
        let pushed : length (if ltb (length s.cand) max_cand then s.cand ++ r ∷ [] else s.cand)
            ≤ length s.cand + 1 =
          ground (arith, length-append s.cand (r ∷ [])) in
        elim (Bool-cases (ltb (length s.res) ef || beats_top (dist nb) s.res)) [
          | inl near ↦
              rw (met, near)
                (omega (arith, fewer, pushed, h.0), omega (arith, length-set s.buf nb gen, h.1))
          | inr far ↦
              rw (met, far) (omega (arith, fewer, h.0), omega (arith, length-set s.buf nb gen, h.1))
        ]
  ]

  length-swap_out :
      (cand : List (SearchResult F)) (i : ℕ) (f : SearchResult F)
      → length (swap_out cand i f) ≤ length cand - 1
  unfolding swap_out
  length-swap_out cand i f =
      let swapped = set cand i (get_or cand (length cand - 1) f) in
      omega (arith, length-take (length cand - 1) swapped)

  single_loop_steady :
      (fuel more : ℕ) (block start : ℕ → ℕ) (mm : ℕ) (s : Single F) (k : ℕ)
      → Linked n block
      → SingleLoad k s
      → k < fuel
      → k < more
      → single_loop fuel dist flags gen ef block start mm s
        ≡ single_loop more dist flags gen ef block start mm s
  unfolding single_loop expand_1
  single_loop_steady zero more block start mm s k linked h lt lt' = absurd (omega arith)
  single_loop_steady (suc fuel) zero block start mm s k linked h lt lt' = absurd (omega arith)
  single_loop_steady (suc fuel) (suc more) block start mm s k linked h lt lt' =
      elim (List-cases s.cand) [
        | inl none_left ↦ rw none_left refl
        | inr (c, cs, e) ↦
            let i = min_index (c ∷ cs) c in
            let f = get_or (c ∷ cs) i c in
            let popped : SingleLoad (k - 1) (record s { cand = swap_out (c ∷ cs) i c }) =
              (omega (arith, ap length e, h.0, length-swap_out (c ∷ cs) i c), h.1) in
            let some_left : 0 < k = omega (arith, ap length e, h.0) in
            elim (Bool-cases (leb ef (length s.res) && beyond_top f.dist s.res)) [
              | inl stop ↦ rw (e, stop) refl
              | inr go ↦
                  rw (e, go)
                    (single_loop_steady fuel more block start mm _ (k - 1) linked
                      (for_range_inv (λ _ s. SingleLoad (k - 1) s) _ mm _
                        (λ i s lt h.
                          meet_1-SingleLoad (k - 1) (block (start f.slot + i)) s
                            (linked (start f.slot + i)) h)
                        popped)
                      (omega (arith, some_left)) (omega (arith, some_left)))
            ]
      ]

module _ {F : Type 0} ⦃fl : Float F⦄ (flags : List Bool) (dist : ℕ → F) where
  -- How many of the first n slots are nearer than d.
  abbrev nearer : ℕ → F → ℕ
  nearer zero d = 0
  nearer (suc n) d = (if fl.lt (dist n) d then 1 else 0) + nearer n d

  nearer-le : (n : ℕ) (d : F) → nearer n d ≤ n
  nearer-le zero d = omega arith
  nearer-le (suc n) d = ground (arith, nearer-le n d)

  nearer_mono : (n : ℕ) (d e : F) → fl.lt d e ≡ true → nearer n d ≤ nearer n e
  nearer_mono zero d e lt = omega arith
  nearer_mono (suc n) d e lt = ground (arith, nearer_mono n d e lt, fl.lt_trans (dist n) d e)

  nearer-lt : (n s : ℕ) (e : F) → s < n → fl.lt (dist s) e ≡ true → nearer n (dist s) < nearer n e
  nearer-lt zero s e lt less = absurd (omega arith)
  nearer-lt (suc n) s e lt less = elim (Bool-cases (n == s)) [
    | inl this ↦
        let same : n ≡ s = ground arith in
        rw same (ground (arith, less, fl.lt_irrefl (dist s), nearer_mono s (dist s) e less))
    | inr other ↦ ground (arith, nearer-lt n s e, less, fl.lt_trans (dist n) (dist s) e)
  ]

  -- No neighbour was nearer, or this is one of them.
  abbrev IsMove : ℕ → F → Best F → Type 0
  IsMove n d b =
      (b.slot ≡ empty) × (b.dist ≡ d)
      ⊎ (b.slot < n) × (b.dist ≡ dist b.slot) × (fl.lt b.dist d ≡ true)

  closer_neighbor-IsMove :
      (n nb : ℕ) (d : F) (b : Best F)
      → (nb ≡ empty) ⊎ (nb < n)
      → IsMove n d b
      → IsMove n d (closer_neighbor dist flags nb b)
  unfolding closer_neighbor
  closer_neighbor-IsMove n nb d b l h = ground (arith, fl.lt_trans (dist nb) b.dist d)

  improve_steady :
      (n fuel more : ℕ) (block start : ℕ → ℕ) (mm curr : ℕ) (d : F)
      → Linked n block
      → nearer n d < fuel
      → nearer n d < more
      → improve fuel dist flags block start mm curr d
        ≡ improve more dist flags block start mm curr d
  unfolding improve best_neighbor
  improve_steady n zero more block start mm curr d linked lt lt' = absurd (omega arith)
  improve_steady n (suc fuel) zero block start mm curr d linked lt lt' = absurd (omega arith)
  improve_steady n (suc fuel) (suc more) block start mm curr d linked lt lt' =
      let b = best_neighbor dist flags block (start curr) mm d in
      let move : IsMove n d b =
        for_range_inv (λ _ b. IsMove n d b) _ mm _
          (λ i b k h.
            closer_neighbor-IsMove n (block (start curr + i)) d b (linked (start curr + i)) h)
          (inl (refl, refl)) in
      elim (Bool-cases (b.slot == empty)) [
        | inl stay ↦ rw stay refl
        | inr go ↦
            let fewer : nearer n b.dist < nearer n d =
              ground (arith, move, go, nearer-lt n b.slot d) in
            let rest =
              improve_steady n fuel more block start mm b.slot b.dist linked (omega (arith, fewer))
                (omega (arith, fewer)) in
            rw go rest
      ]

-- A slot that is marked is not counted.
unmarked_lt :
    (gen : ℕ) (buf : List ℕ) (i : ℕ) → i < length buf → unmarked gen (set buf i gen) < length buf
unmarked_lt gen [] i lt = absurd (omega arith)
unmarked_lt gen (v ∷ buf) zero lt = ground (arith, unmarked-le-length gen buf)
unmarked_lt gen (v ∷ buf) (suc i) lt = ground (arith, unmarked_lt gen buf i)

module _ {F : Type 0} ⦃fl : Float F⦄ (m : Manager F) (dim : ℕ) (use_avx2 : Bool) (flags : List Bool)
    (query : List F) where
  -- In a graph whose edges lead to slots in use, the loops of search_layer, search_layer_1 and the
  -- descent, from a slot in use, end by themselves within the rounds that the model gives them: with
  -- any number of rounds above the capacity they come to the same.
  pub enough_rounds :
      (entry ef level fuel : ℕ) (visits : Visits)
      → Linked m.vector_count m.hnsw_edge_block
      → m.vector_count ≤ m.max_capacity
      → entry < m.vector_count
      → m.max_capacity < fuel
      → let dist = dist_to m dim use_avx2 flags query in
        let v = next_gen visits m.max_capacity in
        let start = λ (s : ℕ). level_start s level m.hnsw_m in
        let mm = m_max level m.hnsw_m in
        let b = entry_beam dist flags v entry in
        let s = entry_single dist flags v entry in
        (beam_loop (m.max_capacity + 1) dist flags v.gen ef m.hnsw_edge_block start mm b
          ≡ beam_loop fuel dist flags v.gen ef m.hnsw_edge_block start mm b)
        × (single_loop (m.max_capacity + 1) dist flags v.gen ef m.hnsw_edge_block start mm s
            ≡ single_loop fuel dist flags v.gen ef m.hnsw_edge_block start mm s)
        × (improve (m.vector_count + 1) dist flags m.hnsw_edge_block start mm entry (dist entry)
            ≡ improve fuel dist flags m.hnsw_edge_block start mm entry (dist entry))
  unfolding entry_beam entry_single
  enough_rounds entry ef level fuel visits linked within lt enough =
      let dist = dist_to m dim use_avx2 flags query in
      let v = next_gen visits m.max_capacity in
      let start = λ (s : ℕ). level_start s level m.hnsw_m in
      let mm = m_max level m.hnsw_m in
      let cap = length-next_gen visits m.max_capacity in
      let waiting : 1 + unmarked v.gen (set v.buf entry v.gen) ≤ m.max_capacity =
        omega (arith, cap, unmarked_lt v.gen v.buf entry) in
      let sized : m.vector_count ≤ length (set v.buf entry v.gen) =
        omega (arith, cap, length-set v.buf entry v.gen) in
      let count = nearer-le flags dist m.vector_count (dist entry) in
      (
        beam_loop_steady m.vector_count flags dist v.gen ef (m.max_capacity + 1) fuel
            m.hnsw_edge_block start mm _ m.max_capacity linked (waiting, sized) (omega arith)
            enough,
        single_loop_steady m.vector_count flags dist v.gen ef (m.max_capacity + 1) fuel
            m.hnsw_edge_block start mm _ m.max_capacity linked (waiting, sized) (omega arith)
            enough,
        improve_steady flags dist m.vector_count (m.vector_count + 1) fuel m.hnsw_edge_block start
            mm entry (dist entry) linked (omega (arith, count)) (omega (arith, count)),
      )
