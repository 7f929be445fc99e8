-- ===== src/Tests/Distance.antt =====
-- Distances of vectors of whole numbers.
use red_box_db.Base.{List, [], refl, ℕ, ◌∷◌, ◌≡◌}
use red_box_db.Distance.{l2_avx2}
use red_box_db.Tests.{first_draws, lone_graph, nat_double, nat_float}

abbrev eleven : List ℕ
eleven = 1 ∷ 2 ∷ 3 ∷ 4 ∷ 5 ∷ 6 ∷ 7 ∷ 8 ∷ 9 ∷ 10 ∷ 11 ∷ []

abbrev ones : List ℕ
ones = 1 ∷ 1 ∷ 1 ∷ 1 ∷ 1 ∷ 1 ∷ 1 ∷ 1 ∷ 1 ∷ 1 ∷ 1 ∷ []

l2_avx2_runs : l2_avx2 eleven ones 11 ≡ 385
unfolding l2_avx2
l2_avx2_runs = refl
