-- ===== src/Base/Loops.antt =====
-- `for (k = i; k < i + n; ++k) s = body(k, s)`, with its invariant rule.
use Prim.Native.Nat.{ℕ, zero, suc, ◌+◌, ◌<◌}
use mathlib.Core.Path.{◌≡◌, subst}
use native.Mathlib.Omega.{arith}

module _ {ℓ} {S : Type ℓ} where
  -- The number of rounds left, the index, what a round does, and the state.
  unfoldable pub for_range : (left i : ℕ) → (ℕ → S → S) → S → S
  for_range zero i round state = state
  for_range (suc left) i round state = for_range left (suc i) round (round i state)

  module _ {κ} (P : ℕ → S → Type κ) (round : ℕ → S → S) where
    -- The invariant sees that the index is in range.
    for_range_from :
        (stop left i : ℕ) (state : S)
        → ((k : ℕ) (t : S) → k < stop → P k t → P (suc k) (round k t))
        → i + left ≡ stop
        → P i state
        → P stop (for_range left i round state)
    unfolding for_range
    for_range_from stop zero i state keep e h = subst (λ k. P k state) (omega arith) h
    for_range_from stop (suc left) i state keep e h =
        for_range_from stop left (suc i) (round i state) keep (omega arith)
          (keep i state (omega arith) h)

    pub for_range_inv :
        (stop : ℕ) (state : S)
        → ((k : ℕ) (t : S) → k < stop → P k t → P (suc k) (round k t))
        → P 0 state
        → P stop (for_range stop 0 round state)
    for_range_inv stop state keep h = for_range_from stop stop 0 state keep (omega arith) h
