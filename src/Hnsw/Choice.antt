-- ===== src/Hnsw/Choice.antt =====
-- A property of slots passes through the lists of include/redboxdb/hnsw_manager.hpp.
use red_box_db.Base.{
  All, Bool, Bool-cases, List, [], inl, inr, leb, length, ltb, snoc-All, take-All, ℕ, ◌++◌, ◌∷◌,
}
use red_box_db.Floats.{Float}
use red_box_db.Distance.{l2}
use red_box_db.Hnsw.{
  SearchResult, is_diverse, push_max, push_min, select_diverse, select_neighbors_heuristic,
  slots_of, sort_results,
}

module _ {F : Type 0} ⦃fl : Float F⦄ (P : SearchResult F → Type 0) where
  pub push_min-All :
      (a : SearchResult F) (rs : List (SearchResult F)) → P a → All P rs → All P (push_min a rs)
  unfolding push_min
  push_min-All a [] p h = (p, tt)
  push_min-All a (b ∷ bs) p h = elim (Bool-cases (fl.lt a.dist b.dist)) [
    | inl less ↦ rw less (p, h)
    | inr more ↦ rw more (h.0, push_min-All a bs p h.1)
  ]

  pub push_max-All :
      (a : SearchResult F) (rs : List (SearchResult F)) → P a → All P rs → All P (push_max a rs)
  unfolding push_max
  push_max-All a [] p h = (p, tt)
  push_max-All a (b ∷ bs) p h = elim (Bool-cases (fl.lt a.dist b.dist)) [
    | inl less ↦ rw less (h.0, push_max-All a bs p h.1)
    | inr more ↦ rw more (p, h)
  ]

module _ {F : Type 0} ⦃fl : Float F⦄ (P : ℕ → Type 0) where
  -- P at the slots of results.
  abbrev pub AllSlots : List (SearchResult F) → Type 0
  AllSlots = All (λ r. P r.slot)

  sort_results-All : (rs : List (SearchResult F)) → AllSlots rs → AllSlots (sort_results rs)
  unfolding sort_results
  sort_results-All [] h = tt
  sort_results-All (a ∷ rest) h =
      push_min-All (λ r. P r.slot) a (sort_results rest) h.0 (sort_results-All rest h.1)

  slots_of-All : (rs : List (SearchResult F)) → AllSlots rs → All P (slots_of rs)
  slots_of-All [] h = tt
  slots_of-All (r ∷ rs) h = (h.0, slots_of-All rs h.1)

  select_diverse-All :
      (between : ℕ → ℕ → F) (m : ℕ) (rs : List (SearchResult F)) (selected : List ℕ)
      → AllSlots rs
      → All P selected
      → All P (select_diverse between m rs selected)
  unfolding select_diverse
  select_diverse-All between m [] selected h k = k
  select_diverse-All between m (cand ∷ rest) selected h k =
      let taken =
        select_diverse-All between m rest (selected ++ cand.slot ∷ []) h.1
          (snoc-All P selected cand.slot k h.0) in
      let passed = select_diverse-All between m rest selected h.1 k in
      elim (Bool-cases (leb m (length selected))) [
        | inl full ↦ rw full k
        | inr room ↦ elim (Bool-cases (is_diverse between cand selected)) [
          | inl good ↦ rw (room, good) taken
          | inr bad ↦ rw (room, bad) passed
        ]
      ]

  pub select_neighbors_heuristic-All :
      (rs : List (SearchResult F)) (m : ℕ) (rows : ℕ → List F) (dim : ℕ) (use_avx2 : Bool)
      → AllSlots rs
      → All P (select_neighbors_heuristic rs m rows dim use_avx2)
  unfolding select_neighbors_heuristic
  select_neighbors_heuristic-All rs m rows dim use_avx2 h =
      let between = λ (a b : ℕ). l2 (rows a) (rows b) dim use_avx2 in
      let sorted = sort_results-All rs h in
      let diverse = select_diverse-All between m (sort_results rs) [] sorted tt in
      elim (Bool-cases (ltb (length (select_diverse between m (sort_results rs) [])) m)) [
        | inl few ↦ rw few (take-All P m _ (slots_of-All _ sorted))
        | inr enough ↦ rw enough diverse
      ]
