-- ===== src/Engine/Search.antt =====
-- `RedBoxVector::search` and `search_N`.
use red_box_db.Base.{
  Bool, List, Option, [], if◌then◌else◌, length, ltb, map, none, not, some, tabulate, take, ℕ, ◌&&◌,
  ◌++◌, ◌==◌, ◌||◌, ◌∷◌,
}
use red_box_db.Base.Int.{negsuc, to_int, ℤ}
use red_box_db.Floats.{Float}
use red_box_db.Distance.{l2}
use red_box_db.Metadata.{is_hnsw}
use red_box_db.Cluster.{nearest}
use red_box_db.Graph.{GraphIndex, flag}
use red_box_db.Engine.{Engine}

-- `if (!deleted_flags[slot]) candidates.push_back(slot)`
unfoldable pub live_slots : List Bool → List ℕ → List ℕ
live_slots flags [] = []
live_slots flags (slot ∷ slots) =
    if flag flags slot then live_slots flags slots else slot ∷ live_slots flags slots

-- The candidates of the clusters, in the order of the probes.
unfoldable pub probe : List Bool → (ℕ → List ℕ) → List ℕ → List ℕ
unfolding live_slots
probe flags index [] = []
probe flags index (c ∷ cs) = live_slots flags (index c) ++ probe flags index cs

module _ {F : Type 0} ⦃fl : Float F⦄ where
  -- `<` on `std::pair<float, int>`.
  abbrev pub less_pair : F × ℕ → F × ℕ → Bool
  less_pair a b = fl.lt a.0 b.0 || not (fl.lt b.0 a.0) && ltb a.1 b.1

  -- Insertion into a list in ascending order. No two pairs of the program's lists are equal, so
  -- any sort by `less_pair` gives this order; with a NaN the source has no defined order.
  unfoldable pub insert_pair : F × ℕ → List (F × ℕ) → List (F × ℕ)
  insert_pair a [] = a ∷ []
  insert_pair a (b ∷ bs) = if less_pair a b then a ∷ b ∷ bs else b ∷ insert_pair a bs

  unfoldable pub sort_pairs : List (F × ℕ) → List (F × ℕ)
  unfolding insert_pair
  sort_pairs [] = []
  sort_pairs (a ∷ as') = insert_pair a (sort_pairs as')

  -- A `std::priority_queue<std::pair<float, int>>`: its top, the greatest pair, is the head.
  unfoldable pub push_pair : F × ℕ → List (F × ℕ) → List (F × ℕ)
  push_pair a [] = a ∷ []
  push_pair a (b ∷ bs) = if less_pair a b then b ∷ push_pair a bs else a ∷ b ∷ bs

  -- One candidate of `search_N`. `top()` is called on a full queue only, which N > 0 makes nonempty.
  unfoldable pub offer : ℕ → F × ℕ → List (F × ℕ) → List (F × ℕ)
  unfolding push_pair
  offer n a [] = if ltb 0 n then a ∷ [] else []
  offer n a (top ∷ rest) =
      if ltb (length (top ∷ rest)) n
      then push_pair a (top ∷ rest)
      else if fl.lt a.0 top.0
      then push_pair a rest
      else top ∷ rest

  unfoldable pub offer_all : ℕ → (ℕ → F) → List ℕ → List (F × ℕ) → List (F × ℕ)
  unfolding offer
  offer_all n dist [] pq = pq
  offer_all n dist (slot ∷ slots) pq = offer_all n dist slots (offer n (dist slot, slot) pq)

  -- The popped slots, reversed: nearest first.
  unfoldable pub drain : List (F × ℕ) → List ℕ → List ℕ
  drain [] result = result
  drain ((d, slot) ∷ pq) result = drain pq (slot ∷ result)

  unfoldable pub scan_nearest : (ℕ → F) → List ℕ → F → Option ℕ → Option ℕ
  scan_nearest dist [] min_dist best_slot = best_slot
  scan_nearest dist (slot ∷ slots) min_dist best_slot =
      let closer = scan_nearest dist slots (dist slot) (some slot) in
      let same = scan_nearest dist slots min_dist best_slot in
      if fl.lt (dist slot) min_dist then closer else same

-- `centroid_dists` of the clusters, after the sort, cut to the probes.
abbrev pub seconds : {F : Type 0} → List (F × ℕ) → List ℕ
seconds = map (λ p. p.1)

module _ {F G : Type 0} ⦃fl : Float F⦄ ⦃graph : GraphIndex F G⦄ where
  -- The clusters that a query probes. With more probes than clusters the source reads past the end.
  unfoldable pub probed_clusters : Engine F G → List F → List ℕ
  unfolding nearest sort_pairs l2
  probed_clusters e query =
      let m = e.manager in
      let dist = λ (c : ℕ). l2 query (m.centroid_block c) e.dimension e.use_avx2 in
      if m.num_probes == 1
      then (nearest dist m.num_clusters).best_c ∷ []
      else seconds (take m.num_probes (sort_pairs (tabulate m.num_clusters (λ c. (dist c, c)))))

  -- The candidate slots of the IVF path.
  unfoldable pub candidates : Engine F G → List F → List ℕ
  unfolding probed_clusters probe live_slots
  candidates e query =
      if e.manager.is_initialized
      then probe e.deleted_flags e.cluster_index (probed_clusters e query)
      else live_slots e.deleted_flags (tabulate e.manager.vector_count (λ i. i))

  -- `Distance::l2(vec_ptr, query.data(), dimension, use_avx2)` of a slot.
  abbrev pub slot_dist : Engine F G → List F → ℕ → F
  slot_dist e query slot = l2 (e.manager.float_block slot) query e.dimension e.use_avx2

  -- The slot that `search` answers with.
  unfoldable pub search_slot : Engine F G → List F → Option ℕ
  unfolding candidates scan_nearest is_hnsw
  search_slot e query =
      if e.manager.vector_count == 0
      then none
      else if is_hnsw e.manager.index_type
      then graph.search_1 query e.manager e.dimension e.use_avx2 e.deleted_flags 8
      else scan_nearest (slot_dist e query) (candidates e query) fl.max_value none

  -- `static_cast<int>` of a slot's id; -1 where there is none.
  unfoldable pub search : Engine F G → List F → ℤ
  unfolding search_slot to_int
  search e query = elim (search_slot e query) [
    | none ↦ negsuc 0
    | some slot ↦ to_int (e.manager.id_block slot)
  ]

  unfoldable pub search_n_slots : Engine F G → List F → ℕ → List ℕ
  unfolding candidates offer_all drain is_hnsw
  search_n_slots e query n =
      if e.manager.vector_count == 0
      then []
      else if is_hnsw e.manager.index_type
      then take n (seconds (graph.search query n e.manager e.dimension e.use_avx2 e.deleted_flags))
      else drain (offer_all n (slot_dist e query) (candidates e query) []) []

  -- `search_N`, for N > 0, which the server checks.
  unfoldable pub search_n : Engine F G → List F → ℕ → List ℤ
  unfolding search_n_slots
  search_n e query n = map (λ slot. to_int (e.manager.id_block slot)) (search_n_slots e query n)
