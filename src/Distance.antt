-- ===== src/Distance.antt =====
-- include/redboxdb/distance.hpp: the squared Euclidean distance, scalar and by AVX2.
use red_box_db.Base.{Bool, List, for_range, get_or, if◌then◌else◌, leb, suc, zero, ℕ, ◌+◌, ◌-◌}
use red_box_db.Floats.{Float}

-- A `__m256`: eight lanes.
pub record Lanes (F : Type 0) : Type 0 where
  pub s0 : F
  pub s1 : F
  pub s2 : F
  pub s3 : F
  pub s4 : F
  pub s5 : F
  pub s6 : F
  pub s7 : F

module _ {F : Type 0} ⦃fl : Float F⦄ where
  -- `a[d]`; the callers pass vectors of `dim` values.
  abbrev pub at : List F → ℕ → F
  at a d = get_or a d fl.nought

  abbrev pub diff_at : List F → List F → ℕ → F
  diff_at a b d = fl.sub (at a d) (at b d)

  -- The body of the scalar loops.
  abbrev pub scalar_step : List F → List F → ℕ → F → F
  scalar_step a b d sum = fl.add sum (fl.mul (diff_at a b d) (diff_at a b d))

  unfoldable pub l2_scalar : List F → List F → ℕ → F
  unfolding for_range
  l2_scalar a b dim = for_range dim 0 (scalar_step a b) fl.nought

  -- `_mm256_setzero_ps()`
  abbrev pub zero_lanes : Lanes F
  zero_lanes = record {
    s0 = fl.nought;
    s1 = fl.nought;
    s2 = fl.nought;
    s3 = fl.nought;
    s4 = fl.nought;
    s5 = fl.nought;
    s6 = fl.nought;
    s7 = fl.nought;
  }

  abbrev pub square_onto : List F → List F → ℕ → F → F
  square_onto a b d s = fl.fma (diff_at a b d) (diff_at a b d) s

  -- Loads at d, subtraction and `_mm256_fmadd_ps(diff, diff, sum)`.
  abbrev pub lanes_step : List F → List F → ℕ → Lanes F → Lanes F
  lanes_step a b d sum = record {
    s0 = square_onto a b d sum.s0;
    s1 = square_onto a b (d + 1) sum.s1;
    s2 = square_onto a b (d + 2) sum.s2;
    s3 = square_onto a b (d + 3) sum.s3;
    s4 = square_onto a b (d + 4) sum.s4;
    s5 = square_onto a b (d + 5) sum.s5;
    s6 = square_onto a b (d + 6) sum.s6;
    s7 = square_onto a b (d + 7) sum.s7;
  }

  -- `for (; d + 8 <= dim; d += 8)`, on fuel; what is left is the tail's start and the lanes.
  unfoldable pub lanes_loop : ℕ → ℕ → ℕ → List F → List F → Lanes F → ℕ × Lanes F
  lanes_loop zero d dim a b sum = (d, sum)
  lanes_loop (suc fuel) d dim a b sum =
      let rest = lanes_loop fuel (d + 8) dim a b (lanes_step a b d sum) in
      if leb (d + 8) dim then rest else (d, sum)

  -- The two halves are added, and `_mm_hadd_ps` twice adds neighbours.
  abbrev pub horizontal : Lanes F → F
  horizontal s =
      fl.add (fl.add (fl.add s.s0 s.s4) (fl.add s.s1 s.s5))
        (fl.add (fl.add s.s2 s.s6) (fl.add s.s3 s.s7))

  unfoldable pub l2_avx2 : List F → List F → ℕ → F
  unfolding lanes_loop for_range
  l2_avx2 a b dim =
      let (d, sum) = lanes_loop dim 0 dim a b zero_lanes in
      for_range (dim - d) d (scalar_step a b) (horizontal sum)

  -- Built for x86-64, where the intrinsics are compiled in.
  unfoldable pub l2 : List F → List F → ℕ → Bool → F
  unfolding l2_avx2 l2_scalar
  l2 a b dim use_avx2 = if use_avx2 then l2_avx2 a b dim else l2_scalar a b dim
