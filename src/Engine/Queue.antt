-- ===== src/Engine/Queue.antt =====
-- Descending order in the priority queue of `search_N` (src/engine.cpp), and insertion in it.
use red_box_db.Base.{
  All, All-mono, Bool-cases, List, [], arith, false, if◌then◌else◌, inl, inr, length, refl, suc,
  times, true, ℕ, ◌==◌, ◌∷◌, ◌≡◌,
}
use red_box_db.Floats.{Float}
use red_box_db.Engine.Search.{less_pair, push_pair, seconds}

module _ {F : Type 0} ⦃fl : Float F⦄ where
  -- `b` is not nearer than `a`.
  abbrev pub NotNearer : F → F → Type 0
  NotNearer a b = fl.lt b a ≡ false

  pub lt_asymm : (a b : F) → fl.lt a b ≡ true → fl.lt b a ≡ false
  lt_asymm a b h = ground (arith, fl.lt_trans a b a h, fl.lt_irrefl a)

  -- A queue in descending order of distances that are numbers.
  abbrev pub IsQueue : List (F × ℕ) → Type 0
  IsQueue [] = Unit {0}
  IsQueue (p ∷ ps) =
      (fl.is_nan p.0 ≡ false) × All (λ (q : F × ℕ). NotNearer q.0 p.0) ps × IsQueue ps

  pub push_pair-All :
      (P : F × ℕ → Type 0) (a : F × ℕ) (ps : List (F × ℕ)) → P a → All P ps → All P (push_pair a ps)
  unfolding push_pair
  push_pair-All P a [] h hs = (h, tt)
  push_pair-All P a (p ∷ ps) h hs = elim (Bool-cases (less_pair a p)) [
    | inl less ↦ rw less (hs.0, push_pair-All P a ps h hs.1)
    | inr more ↦ rw more (h, hs)
  ]

  -- What stands behind p is no more distant than a, if p is not.
  pub behind :
      (a p : F × ℕ) (ps : List (F × ℕ))
      → fl.is_nan p.0 ≡ false
      → NotNearer p.0 a.0
      → All (λ (q : F × ℕ). NotNearer q.0 p.0) ps
      → All (λ (q : F × ℕ). NotNearer q.0 a.0) ps
  behind a p ps n h hs = All-mono ps (λ q k. ground (arith, fl.lt_cotrans a.0 p.0 q.0 n)) hs

  pub push_pair-IsQueue :
      (a : F × ℕ) (ps : List (F × ℕ))
      → fl.is_nan a.0 ≡ false
      → IsQueue ps
      → IsQueue (push_pair a ps)
  unfolding push_pair
  push_pair-IsQueue a [] n h = (n, tt, tt)
  push_pair-IsQueue a (p ∷ ps) n h = elim (Bool-cases (less_pair a p)) [
    | inl less ↦ rw less (
      h.0,
      push_pair-All (λ q. NotNearer q.0 p.0) a ps (ground (arith, lt_asymm a.0 p.0)) h.1,
      push_pair-IsQueue a ps n h.2,
    )
    | inr more ↦
        let l : NotNearer p.0 a.0 = ground arith in rw more (n, (l, behind a p ps h.0 l h.1), h)
  ]

  pub length-push_pair : (a : F × ℕ) (ps : List (F × ℕ)) → length (push_pair a ps) ≡ suc (length ps)
  unfolding push_pair
  length-push_pair a [] = refl
  length-push_pair a (p ∷ ps) = ground (arith, length-push_pair a ps)

  pub times-push_pair :
      (a : F × ℕ) (ps : List (F × ℕ)) (t : ℕ)
      → times (seconds (push_pair a ps)) t
        ≡ (if a.1 == t then suc (times (seconds ps) t) else times (seconds ps) t)
  unfolding push_pair times
  times-push_pair a [] t = refl
  times-push_pair a (p ∷ ps) t = ground (arith, times-push_pair a ps t)
