-- ===== src/Hnsw/Levels.antt =====
-- `compute_level` and `select_closest_neighbors` of include/redboxdb/hnsw_manager.hpp, over the
-- functions of the standard library that they call. The levels that the index is given stand for
-- the results of the first; nothing calls the second.
use red_box_db.Base.{
  List, [], arith, if◌then◌else◌, length, length-take, min, refl, take, ℕ, ◌==◌, ◌∷◌, ◌≡◌,
}
use red_box_db.Base.Int.{ℤ}
use red_box_db.Floats.{Float}
use red_box_db.Hnsw.{SearchResult, slots_of}

-- `std::log`, negation, and the conversion of `std::floor` to an int; `tiny` is 1e-10f.
pub record Logs (F : Type 0) : Type 0 where
  pub log : F → F
  pub neg : F → F
  pub floor_int : F → ℤ
  pub tiny : F

-- `std::nth_element` by the distance: it reorders the elements.
pub record NthElement (F : Type 0) : Type 0 where
  pub nth_element : ℕ → List (SearchResult F) → List (SearchResult F)
  pub length-nth_element :
      (n : ℕ) (rs : List (SearchResult F)) → length (nth_element n rs) ≡ length rs

module _ {F : Type 0} ⦃fl : Float F⦄ ⦃logs : Logs F⦄ where
  -- For `dist(rng)`, which is drawn from [0, 1).
  unfoldable compute_level : ℕ → F → ℤ
  compute_level m drawn =
      let ml = fl.div (fl.of_nat 1) (logs.log (fl.of_nat m)) in
      let r = fl.sub (fl.of_nat 1) drawn in
      let r' = if fl.le r fl.nought then logs.tiny else r in
      logs.floor_int (fl.mul (logs.neg (logs.log r')) ml)

length-slots_of : {F : Type 0} (rs : List (SearchResult F)) → length (slots_of rs) ≡ length rs
length-slots_of [] = refl
length-slots_of (r ∷ rs) = ground (arith, length-slots_of rs)

module _ {F : Type 0} ⦃nth : NthElement F⦄ where
  -- For M that is not negative.
  unfoldable select_closest_neighbors : List (SearchResult F) → ℕ → List ℕ
  select_closest_neighbors candidates m =
      let n = min m (length candidates) in
      if n == length candidates
      then slots_of candidates
      else slots_of (take n (nth.nth_element n candidates))

  -- It selects M slots, or as many as there are candidates.
  length-select_closest_neighbors :
      (candidates : List (SearchResult F)) (m : ℕ)
      → length (select_closest_neighbors candidates m) ≡ min m (length candidates)
  unfolding select_closest_neighbors
  length-select_closest_neighbors candidates m =
      let n = min m (length candidates) in
      let chosen = take n (nth.nth_element n candidates) in
      ground (
        arith,
        length-slots_of candidates,
        length-slots_of chosen,
        length-take n (nth.nth_element n candidates),
        nth.length-nth_element n candidates,
      )
