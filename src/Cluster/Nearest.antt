-- ===== src/Cluster/Nearest.antt =====
-- The linear scan for the nearest centroid finds a least distance.
use red_box_db.Base.{
  Bool, Bool-cases, List, ap, arith, below-suc, false, for_range_inv, inl, inr, refl, suc, true, ℕ,
  ◌<◌, ◌≡◌, ◌⊎◌,
}
use red_box_db.Floats.{Float}
use red_box_db.Distance.{l2}
use red_box_db.Cluster.{Best, closer, find_nearest_centroid, nearest}

module _ {F : Type 0} ⦃fl : Float F⦄ where
  abbrev unscanned : Best F
  unscanned = record { best_dist = fl.max_value; best_c = 0 }

  -- After the indices below i: nothing seen is less than the best, which is one of those seen or
  -- the largest number.
  pub record IsScan (dist : ℕ → F) (i : ℕ) (b : Best F) : Type 0 where
    pub least : (c : ℕ) → c < i → fl.lt (dist c) b.best_dist ≡ false
    pub origin :
        (b ≡ unscanned)
        ⊎ ((b.best_c < i) × (b.best_dist ≡ dist b.best_c) × (fl.lt b.best_dist fl.max_value ≡ true))

  below_max :
      (dist : ℕ → F) (i : ℕ) (b : Best F) (x : F)
      → IsScan dist i b
      → fl.lt x b.best_dist ≡ true
      → fl.lt x fl.max_value ≡ true
  below_max dist i b x s h = elim s.origin [
    | inl e ↦ rw (ap (λ (b : Best F). b.best_dist) e) at h
    | inr o ↦ fl.lt_trans x b.best_dist fl.max_value h o.2
  ]

  closer-IsScan :
      (dist : ℕ → F) (i : ℕ) (b : Best F) → IsScan dist i b → IsScan dist (suc i) (closer dist i b)
  closer-IsScan dist i b s = elim (Bool-cases (fl.lt (dist i) b.best_dist)) [
    | inl less ↦ rw less (record {
      least =
          below-suc (λ c. fl.lt (dist c) (dist i) ≡ false) i
            (λ c lt. ground (arith, s.least c lt, fl.lt_trans (dist c) (dist i) b.best_dist))
            (fl.lt_irrefl (dist i));
      origin = inr (omega arith, refl, below_max dist i b (dist i) s less);
    })
    | inr more ↦ rw more (record {
      least = below-suc (λ c. fl.lt (dist c) b.best_dist ≡ false) i s.least more;
      origin = ground (arith, s.origin);
    })
  ]

  pub nearest-IsScan : (dist : ℕ → F) (k : ℕ) → IsScan dist k (nearest dist k)
  unfolding nearest
  nearest-IsScan dist k =
      for_range_inv (IsScan dist) (closer dist) k unscanned (λ i b lt s. closer-IsScan dist i b s)
        (record { least = λ c lt. absurd (omega arith); origin = inl refl })

  -- Among k > 0 values of which one is below the largest number, the scan's index is in range, its
  -- value is the best, and no value is less.
  pub nearest-least :
      (dist : ℕ → F) (k c : ℕ)
      → c < k
      → fl.lt (dist c) fl.max_value ≡ true
      → let b = nearest dist k in
        (b.best_c < k)
        × (b.best_dist ≡ dist b.best_c)
        × ((j : ℕ) → j < k → fl.lt (dist j) (dist b.best_c) ≡ false)
  nearest-least dist k c lt finite =
      let s = nearest-IsScan dist k in
      elim s.origin [
        | inl e ↦
            absurd
              (ground (arith, finite, rw (ap (λ (b : Best F). b.best_dist) e) at (s.least c lt)))
        | inr o ↦ (o.0, o.1, λ j lt'. rw (← o.1) (s.least j lt'))
      ]

  pub nearest-lt : (dist : ℕ → F) (k : ℕ) → 0 < k → (nearest dist k).best_c < k
  nearest-lt dist k h = ground (arith, (nearest-IsScan dist k).origin)

  -- If the distance from the vector to some centroid is below the largest float, the assigned
  -- cluster is in range, and no centroid is nearer to the vector than its centroid.
  pub find_nearest_centroid_lem :
      (vec : List F) (centroids : ℕ → List F) (k dim : ℕ) (use_avx2 : Bool) (c j : ℕ)
      → c < k
      → fl.lt (l2 vec (centroids c) dim use_avx2) fl.max_value ≡ true
      → j < k
      → let best = find_nearest_centroid vec centroids k dim use_avx2 in
        (best < k)
        × (fl.lt (l2 vec (centroids j) dim use_avx2) (l2 vec (centroids best) dim use_avx2) ≡ false)
  unfolding find_nearest_centroid
  find_nearest_centroid_lem vec centroids k dim use_avx2 c j lt finite lt' =
      let dist = λ (c : ℕ). l2 vec (centroids c) dim use_avx2 in
      let best = nearest-least dist k c lt finite in (best.0, best.2 j lt')

  -- The assigned cluster is in range, whatever the distances are.
  pub find_nearest_centroid-lt :
      (vec : List F) (centroids : ℕ → List F) (k dim : ℕ) (use_avx2 : Bool)
      → 0 < k
      → find_nearest_centroid vec centroids k dim use_avx2 < k
  unfolding find_nearest_centroid
  find_nearest_centroid-lt vec centroids k dim use_avx2 h = nearest-lt _ k h
