-- ===== src/Cluster/Init.antt =====
-- K-means++ initialisation: the assignment and the counts that the online updates start from.
use red_box_db.Base.{
  ==_ne, Bool, List, arith, for_range, for_range_inv, if◌then◌else◌, ltb, refl, suc, update_map,
  zero, ℕ, ◌+◌, ◌<◌, ◌==◌, ◌∙◌, ◌≡◌, ◌≤◌,
}
use red_box_db.Floats.{Double, Float}
use red_box_db.Cluster.{
  Clusters, Draws, Pass, assign_slot, assign_slots, choose_centroids, find_nearest_centroid,
  kmeans_plus_plus_init,
}
use red_box_db.Cluster.Nearest.{find_nearest_centroid-lt}

-- How many indices below n the assignment sends to c.
unfoldable pub members : ℕ → (ℕ → ℕ) → ℕ → ℕ
members zero assigned c = 0
members (suc n) assigned c = (if assigned n == c then 1 else 0) + members n assigned c

unfoldable pub sum_below : ℕ → (ℕ → ℕ) → ℕ
sum_below zero f = 0
sum_below (suc n) f = f n + sum_below n f

members-update :
    (n i : ℕ) (assigned : ℕ → ℕ) (v c : ℕ)
    → n ≤ i
    → members n (update_map assigned i v) c ≡ members n assigned c
unfolding members
members-update zero i assigned v c h = refl
members-update (suc n) i assigned v c h =
    rw (members-update n i assigned v c (omega arith), ==_ne i n (omega arith))

sum_below-add : (n : ℕ) (f g : ℕ → ℕ) → sum_below n (λ c. f c + g c) ≡ sum_below n f + sum_below n g
unfolding sum_below
sum_below-add zero f g = omega arith
sum_below-add (suc n) f g = omega (arith, sum_below-add n f g)

sum_below-indicator :
    (n v : ℕ) → sum_below n (λ c. if v == c then 1 else 0) ≡ (if ltb v n then 1 else 0)
unfolding sum_below
sum_below-indicator zero v = ground arith
sum_below-indicator (suc n) v = ground (arith, sum_below-indicator n v)

sum_below-zero : (n : ℕ) → sum_below n (λ _. 0) ≡ 0
unfolding sum_below
sum_below-zero zero = refl
sum_below-zero (suc n) = omega (arith, sum_below-zero n)

-- Where every index goes below k, the sizes of the k classes add up.
sum_below-members :
    (k n : ℕ) (assigned : ℕ → ℕ)
    → ((i : ℕ) → i < n → assigned i < k)
    → sum_below k (members n assigned) ≡ n
unfolding members
sum_below-members k zero assigned h = sum_below-zero k
sum_below-members k (suc n) assigned h = ground (
  arith,
  sum_below-add k (λ c. if assigned n == c then 1 else 0) (members n assigned),
  sum_below-indicator k (assigned n),
  sum_below-members k n assigned (λ i lt. h i (omega arith)),
  h n (omega arith),
)

sum_below-congr :
    (k : ℕ) (f g : ℕ → ℕ) → ((c : ℕ) → c < k → f c ≡ g c) → sum_below k f ≡ sum_below k g
unfolding sum_below
sum_below-congr zero f g h = refl
sum_below-congr (suc k) f g h =
    omega (arith, h k (omega arith), sum_below-congr k f g (λ c lt. h c (omega arith)))

reset_counts :
    (k c : ℕ) (counts : ℕ → ℕ) → c < k → for_range k 0 (λ i f. update_map f i 0) counts c ≡ 0
reset_counts k c counts lt =
    for_range_inv (λ i (f : ℕ → ℕ). (j : ℕ) → j < i → f j ≡ 0) (λ i f. update_map f i 0) k counts
      (λ i f _ h j lt'. ground (arith, h j)) (λ j lt'. absurd (omega arith)) c lt

record Assigned {D : Type 0} (k : ℕ) (old : ℕ → ℕ) (i : ℕ) (p : Pass D) : Type 0 where
  in_range : (j : ℕ) → j < i → p.assigned j < k
  counted : (c : ℕ) → c < k → p.counts c ≡ members i p.assigned c
  later : (j : ℕ) → i ≤ j → p.assigned j ≡ old j

module _ {F : Type 0} ⦃fl : Float F⦄ ⦃db : Double F⦄ where
  assign_slot-Assigned :
      (k : ℕ) (old : ℕ → ℕ) (centroids float_block : ℕ → List F) (dim : ℕ) (use_avx2 : Bool)
      → 0 < k
      → (i : ℕ) (p : Pass db.D) → Assigned k old i p
      → Assigned k old (suc i) (assign_slot centroids float_block k dim use_avx2 i p)
  unfolding assign_slot members
  assign_slot-Assigned k old centroids float_block dim use_avx2 pos i p h =
      let new = find_nearest_centroid-lt (float_block i) centroids k dim use_avx2 pos in
      let v = find_nearest_centroid (float_block i) centroids k dim use_avx2 in
      record {
        in_range = λ j lt. ground (arith, h.in_range j, new);
        counted = λ c lt.
            ground (arith, h.counted c lt, members-update i i p.assigned v c, h.counted v new);
        later = λ j le. ground (arith, h.later j);
      }

  assign_slots-Assigned :
      (centroids float_block : ℕ → List F) (counts clusters : ℕ → ℕ) (k n dim : ℕ) (use_avx2 : Bool)
      → 0 < k
      → Assigned k clusters n (assign_slots centroids float_block counts clusters k n dim use_avx2)
  unfolding assign_slots members
  assign_slots-Assigned centroids float_block counts clusters k n dim use_avx2 pos =
      for_range_inv (Assigned k clusters) (assign_slot centroids float_block k dim use_avx2) n _
        (λ i p _ h. assign_slot-Assigned k clusters centroids float_block dim use_avx2 pos i p h)
        (record {
          in_range = λ j lt. absurd (omega arith);
          counted = λ c lt. reset_counts k c counts lt;
          later = λ j le. refl;
        })

pub record IsPartition {F : Type 0} (old b : Clusters F) (k n : ℕ) : Type 0 where
  pub in_range : (i : ℕ) → i < n → b.cluster_block i < k
  pub counted : (c : ℕ) → c < k → b.cluster_count_block c ≡ members n b.cluster_block c
  pub total : sum_below k b.cluster_count_block ≡ n
  pub later : (i : ℕ) → n ≤ i → b.cluster_block i ≡ old.cluster_block i

module _ {F : Type 0} ⦃fl : Float F⦄ ⦃db : Double F⦄ ⦃draws : Draws F⦄ where
  -- With k > 0 clusters, initialisation sends each of the first n slots to a cluster below k, leaves
  -- the other slots' entries, sets each of the k counts to the number of slots sent there, and the
  -- counts add up to n.
  pub kmeans_plus_plus_init-IsPartition :
      (b : Clusters F) (float_block : ℕ → List F) (k n dim : ℕ) (use_avx2 : Bool)
      → 0 < k
      → IsPartition b (kmeans_plus_plus_init b float_block k n dim use_avx2) k n
  unfolding kmeans_plus_plus_init
  kmeans_plus_plus_init-IsPartition b float_block k n dim use_avx2 pos =
      let chosen = choose_centroids b.centroid_block float_block k n dim use_avx2 in
      let p =
        assign_slots chosen float_block b.cluster_count_block b.cluster_block k n dim use_avx2 in
      let h =
        assign_slots-Assigned chosen float_block b.cluster_count_block b.cluster_block k n dim
          use_avx2 pos in
      record {
        in_range = h.in_range;
        counted = h.counted;
        total =
            sum_below-congr k p.counts (members n p.assigned) h.counted
            ∙ sum_below-members k n p.assigned h.in_range;
        later = h.later;
      }
