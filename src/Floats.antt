-- ===== src/Floats.antt =====
-- `float`, `double` and the vector instructions on them, as an interface: what the processor and the
-- standard library supply to include/redboxdb/distance.hpp and its callers.
use red_box_db.Base.{ℕ, ◌≡◌, ◌⊎◌, Bool, true, false, not}

-- The laws are those of IEEE 754 comparison: `<` is false at a NaN, and orders all other values
-- linearly up to the equality of the two zeros.
pub record Float (F : Type 0) : Type 0 where
  pub nought : F
  pub add : F → F → F
  pub sub : F → F → F
  pub mul : F → F → F
  pub div : F → F → F
  -- a * b + c, rounded once
  pub fma : F → F → F → F
  pub of_nat : ℕ → F
  -- `std::numeric_limits<float>::max()`
  pub max_value : F
  pub is_nan : F → Bool
  pub lt : F → F → Bool
  pub le : F → F → Bool
  pub lt_irrefl : (a : F) → lt a a ≡ false
  pub lt_trans : (a b c : F) → lt a b ≡ true → lt b c ≡ true → lt a c ≡ true
  pub le-lt : (a b : F) → is_nan a ≡ false → is_nan b ≡ false → le a b ≡ not (lt b a)
  pub lt_cotrans :
      (a b c : F) → is_nan b ≡ false → lt a c ≡ true → (lt a b ≡ true) ⊎ (lt b c ≡ true)

-- `double`, as include/redboxdb/cluster_manager.hpp uses it.
pub record Double (F : Type 0) : Type 1 where
  pub D : Type 0
  pub nought : D
  pub add : D → D → D
  pub mul : D → D → D
  -- 1.0 / (double)n
  pub recip : ℕ → D
  pub widen : F → D
  pub narrow : D → F
