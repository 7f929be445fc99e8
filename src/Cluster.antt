-- ===== src/Cluster.antt =====
-- include/redboxdb/cluster_manager.hpp: the centroids of the IVF index.
pub mod Nearest
pub mod Init
use red_box_db.Base.{
  Bool, List, for_range, if◌then◌else◌, ltb, set, suc, tabulate, take, update_map, zero, ℕ, ◌%◌,
  ◌+◌, ◌-◌, ◌<◌, ◌==◌,
}
use red_box_db.Floats.{Double, Float}
use red_box_db.Distance.{at, l2}

-- The draws of `std::mt19937 rng(42)`, which is seeded anew for each initialisation.
pub record Draws (F : Type 0) : Type 0 where
  -- `std::uniform_int_distribution<size_t>(0, n - 1)`, the first draw
  pub uniform : ℕ → ℕ
  pub uniform-lt : (n : ℕ) → 0 < n → uniform n < n
  -- `std::uniform_real_distribution<float>(0, total)`, for n vectors and the centroid to choose
  pub sample : ℕ → ℕ → F → F

-- The best distance so far and its index.
pub record Best (F : Type 0) : Type 0 where
  pub best_dist : F
  pub best_c : ℕ

pub record Clusters (F : Type 0) : Type 0 where
  pub centroid_block : ℕ → List F
  pub cluster_count_block : ℕ → ℕ
  pub cluster_block : ℕ → ℕ

-- The accumulators of step 3.
pub record Pass (D : Type 0) : Type 0 where
  pub assigned : ℕ → ℕ
  pub counts : ℕ → ℕ
  pub sums : ℕ → ℕ → D

module _ {F : Type 0} ⦃fl : Float F⦄ where
  -- `if (d < best_d) { best_d = d; best_c = c; }`
  abbrev pub closer : (ℕ → F) → ℕ → Best F → Best F
  closer dist c b =
      if fl.lt (dist c) b.best_dist then record { best_dist = dist c; best_c = c } else b

  -- The scan for the least of the k values.
  unfoldable pub nearest : (ℕ → F) → ℕ → Best F
  unfolding for_range
  nearest dist k = for_range k 0 (closer dist) (record { best_dist = fl.max_value; best_c = 0 })

  unfoldable pub find_nearest_centroid : List F → (ℕ → List F) → ℕ → ℕ → Bool → ℕ
  unfolding nearest l2
  find_nearest_centroid vec centroid_block k dim use_avx2 =
      (nearest (λ c. l2 vec (centroid_block c) dim use_avx2) k).best_c

  -- `centroid[d] += (vec[d] - centroid[d]) / (float)new_count`
  abbrev shift : List F → ℕ → ℕ → List F → List F
  shift vec count d centroid =
      set centroid d
        (fl.add (at centroid d) (fl.div (fl.sub (at vec d) (at centroid d)) (fl.of_nat count)))

  -- The count is a `uint64_t`.
  unfoldable pub update_centroid : (ℕ → List F) → (ℕ → ℕ) → ℕ → List F → ℕ → (ℕ → List F) × (ℕ → ℕ)
  unfolding for_range
  update_centroid centroid_block cluster_count_block c vec dim =
      let new_count = (cluster_count_block c + 1) % 18446744073709551616 in
      (
        update_map centroid_block c (for_range dim 0 (shift vec new_count) (centroid_block c)),
        update_map cluster_count_block c new_count,
      )

  -- The least distance of each vector to a chosen centroid.
  unfoldable pub lower_dists : (ℕ → List F) → List F → ℕ → ℕ → Bool → (ℕ → F) → ℕ → F
  unfolding for_range l2
  lower_dists float_block last_centroid n dim use_avx2 min_dists =
      for_range n 0
        (λ i ds.
          let d = l2 (float_block i) last_centroid dim use_avx2 in
          if fl.lt d (ds i) then update_map ds i d else ds)
        min_dists

  unfoldable pub total_of : ℕ → (ℕ → F) → F
  unfolding for_range
  total_of n ds = for_range n 0 (λ i sum. fl.add sum (ds i)) fl.nought

  -- The first index at which the running sum reaches the sample; 0 if none does.
  unfoldable pub pick_next : ℕ → ℕ → (ℕ → F) → F → F → ℕ
  pick_next zero i ds sample cumulative = 0
  pick_next (suc rounds) i ds sample cumulative =
      let reached = fl.add cumulative (ds i) in
      let rest = pick_next rounds (i + 1) ds sample reached in
      if fl.le sample reached then i else rest

module _ {F : Type 0} ⦃fl : Float F⦄ ⦃draws : Draws F⦄ where
  -- Step 2 for one centroid: the centroids and `min_dists`.
  unfoldable pub choose_centroid :
      (ℕ → List F) → ℕ → ℕ → Bool → ℕ → (ℕ → List F) × (ℕ → F) → (ℕ → List F) × (ℕ → F)
  unfolding lower_dists total_of pick_next
  choose_centroid float_block n dim use_avx2 chosen (centroids, ds) =
      let ds' = lower_dists float_block (centroids (chosen - 1)) n dim use_avx2 ds in
      let sample = draws.sample n chosen (total_of n ds') in
      let next_idx = pick_next n 0 ds' sample fl.nought in
      (update_map centroids chosen (take dim (float_block next_idx)), ds')

  -- Steps 1 and 2.
  unfoldable pub choose_centroids : (ℕ → List F) → (ℕ → List F) → ℕ → ℕ → ℕ → Bool → ℕ → List F
  unfolding choose_centroid for_range
  choose_centroids centroid_block float_block k n dim use_avx2 =
      let first = update_map centroid_block 0 (take dim (float_block (draws.uniform n))) in
      (for_range (k - 1) 1 (choose_centroid float_block n dim use_avx2)
        (first, λ _. fl.max_value)).0

module _ {F : Type 0} ⦃fl : Float F⦄ ⦃db : Double F⦄ where
  -- Pass 1 for slot i.
  unfoldable pub assign_slot :
      (ℕ → List F) → (ℕ → List F) → ℕ → ℕ → Bool → ℕ → Pass db.D → Pass db.D
  unfolding find_nearest_centroid
  assign_slot centroids float_block k dim use_avx2 i p =
      let c = find_nearest_centroid (float_block i) centroids k dim use_avx2 in
      record {
        assigned = update_map p.assigned i c;
        counts = update_map p.counts c (p.counts c + 1);
        sums = update_map p.sums c (λ d.
            if ltb d dim
            then db.add (p.sums c d) (db.widen (at (float_block i) d))
            else p.sums c d);
      }

  -- Pass 2 for centroid c: the mean of its vectors, if it has any.
  unfoldable pub mean_step : Pass db.D → ℕ → ℕ → (ℕ → List F) → ℕ → List F
  mean_step p dim c centroids =
      if p.counts c == 0
      then centroids
      else update_map centroids c
          (tabulate dim (λ d. db.narrow (db.mul (p.sums c d) (db.recip (p.counts c)))))

  -- Pass 1 over the n slots, from counts that are reset below k.
  unfoldable pub assign_slots :
      (ℕ → List F) → (ℕ → List F) → (ℕ → ℕ) → (ℕ → ℕ) → ℕ → ℕ → ℕ → Bool → Pass db.D
  unfolding assign_slot for_range
  assign_slots centroids float_block cluster_count_block cluster_block k n dim use_avx2 =
      for_range n 0 (assign_slot centroids float_block k dim use_avx2) (record {
        assigned = cluster_block;
        counts = for_range k 0 (λ c counts. update_map counts c 0) cluster_count_block;
        sums = λ _ _. db.nought;
      })

  unfoldable pub kmeans_plus_plus_init :
      ⦃draws : Draws F⦄ → Clusters F → (ℕ → List F) → ℕ → ℕ → ℕ → Bool → Clusters F
  unfolding choose_centroids assign_slots mean_step for_range
  kmeans_plus_plus_init b float_block k n dim use_avx2 =
      let chosen = choose_centroids b.centroid_block float_block k n dim use_avx2 in
      let p =
        assign_slots chosen float_block b.cluster_count_block b.cluster_block k n dim use_avx2 in
      record {
        centroid_block = for_range k 0 (mean_step p dim) chosen;
        cluster_count_block = p.counts;
        cluster_block = p.assigned;
      }
