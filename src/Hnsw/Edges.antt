-- ===== src/Hnsw/Edges.antt =====
-- The layout of the edge block (include/redboxdb/hnsw_manager.hpp), and what its writers leave.
use red_box_db.Base.{
  List, ap, arith, for_range_inv, get_or, refl, suc, zero, ℕ, ◌*◌, ◌+◌, ◌-◌, ◌<◌, ◌≡◌, ◌≤◌,
}
use native.Mathlib.Nat.{mul-le-mul_right}
use red_box_db.Storage.Size.{edges_per_node, max_level}
use red_box_db.Hnsw.{empty, level_start, m_max, set_neighbors}

-- What the loop of `set_neighbors` has written after `i` rounds.
record IsWritten (block : ℕ → ℕ) (lev : ℕ) (neighbors : List ℕ) (i : ℕ) (b : ℕ → ℕ) : Type 0 where
  inside : (k : ℕ) → k < i → b (lev + k) ≡ get_or neighbors k empty
  before : (j : ℕ) → j < lev → b j ≡ block j
  after : (j : ℕ) → lev + i ≤ j → b j ≡ block j

-- After `set_neighbors` the edges of the slot at the level are the neighbours, cut at the largest
-- number of the level or filled with `EMPTY`, and no other edge has changed.
pub set_neighbors_lem :
    (block : ℕ → ℕ) (slot level m : ℕ) (neighbors : List ℕ)
    → let b = set_neighbors block slot level m neighbors in
      let lev = level_start slot level m in
      ((k : ℕ) → k < m_max level m → b (lev + k) ≡ get_or neighbors k empty)
      × ((j : ℕ) → j < lev → b j ≡ block j)
      × ((j : ℕ) → lev + m_max level m ≤ j → b j ≡ block j)
unfolding set_neighbors
set_neighbors_lem block slot level m neighbors =
    let lev = level_start slot level m in
    let w =
      for_range_inv (IsWritten block lev neighbors) _ (m_max level m) block
        (λ i b lt h. record {
          inside = λ k le. ground (arith, h.inside k);
          before = λ j le. ground (arith, h.before j);
          after = λ j le. ground (arith, h.after j);
        })
        (record {
          inside = λ k le. absurd (omega arith);
          before = λ j le. refl;
          after = λ j le. refl;
        }) in
    (w.inside, w.before, w.after)

mul_below : (a b m : ℕ) → a < b → a * m + m ≤ b * m
mul_below a b m lt = omega (arith, mul-le-mul_right m lt)

-- The edges of a slot at a level up to `MAX_LEVEL` lie among the edges of the slot, and end where or
-- before those of the next level begin.
pub level_start-within :
    (slot level m : ℕ)
    → level ≤ max_level
    → (slot * edges_per_node m ≤ level_start slot level m)
      × (level_start slot level m + m_max level m ≤ (slot + 1) * edges_per_node m)
      × (level_start slot level m + m_max level m ≤ level_start slot (level + 1) m)
unfolding level_start m_max edges_per_node
level_start-within slot zero m le =
    let none_before : (0 + 1 - 1) * m ≡ 0 = omega arith in
    (ground arith, ground arith, ground (arith, none_before))
level_start-within slot (suc l) m le =
    let part = mul_below l max_level m le in
    let next = mul_below l (suc l) m (omega arith) in
    let up : (suc l + 1 - 1) * m ≡ suc l * m = ap (λ k. k * m) (omega arith) in
    let down : (suc l - 1) * m ≡ l * m = ap (λ k. k * m) (omega arith) in
    (ground arith, ground (arith, part), ground (arith, next, up, down))
