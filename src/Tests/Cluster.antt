-- ===== src/Tests/Cluster.antt =====
-- Nearest centroids and the initialisation at small inputs.
use red_box_db.Base.{List, [], arith, false, ltb, refl, true, ℕ, ◌*◌, ◌<◌, ◌∷◌, ◌≡◌}
use red_box_db.Distance.{l2}
use red_box_db.Cluster.{Clusters, find_nearest_centroid, kmeans_plus_plus_init}
use red_box_db.Cluster.Nearest.{find_nearest_centroid_lem}
use red_box_db.Cluster.Init.{IsPartition, kmeans_plus_plus_init-IsPartition}
use red_box_db.Tests.{first_draws, lone_graph, nat_double, nat_float}

-- Centroid c is (10 c, 10 c).
abbrev spread : ℕ → List ℕ
spread c = (10 * c) ∷ (10 * c) ∷ []

finite : ltb (l2 (12 ∷ 9 ∷ []) (spread 0) 2 false) 1000000 ≡ true
unfolding l2
finite = refl

find_nearest_centroid_lem_example :
    (find_nearest_centroid (12 ∷ 9 ∷ []) spread 4 2 false < 4)
    × (ltb
          (l2 (12 ∷ 9 ∷ []) (spread 3) 2 false)
          (l2 (12 ∷ 9 ∷ []) (spread (find_nearest_centroid (12 ∷ 9 ∷ []) spread 4 2 false)) 2 false)
        ≡ false)
find_nearest_centroid_lem_example =
    find_nearest_centroid_lem (12 ∷ 9 ∷ []) spread 4 2 false 0 3 (omega arith) finite (omega arith)

find_nearest_centroid_runs : find_nearest_centroid (12 ∷ 9 ∷ []) spread 4 2 false ≡ 1
unfolding find_nearest_centroid
find_nearest_centroid_runs = refl

abbrev no_clusters : Clusters ℕ
no_clusters = record {
  centroid_block = λ _. 0 ∷ 0 ∷ [];
  cluster_count_block = λ _. 7;
  cluster_block = λ _. 9;
}

kmeans_plus_plus_init-IsPartition_example :
    IsPartition no_clusters (kmeans_plus_plus_init no_clusters spread 2 6 2 false) 2 6
kmeans_plus_plus_init-IsPartition_example =
    kmeans_plus_plus_init-IsPartition no_clusters spread 2 6 2 false (omega arith)

kmeans_runs : (kmeans_plus_plus_init no_clusters spread 2 6 2 false).cluster_count_block 1 ≡ 3
unfolding kmeans_plus_plus_init
kmeans_runs = refl
