-- ===== src/Engine/Nearest.antt =====
-- `search` answers with a nearest live vector.
use red_box_db.Base.{
  ==_iff, Bool, Bool-cases, List, Option, Option-cases, [], ap, arith, contains, false, fun_ext,
  inl, inr, leb, ltb, none, not, refl, some, suc, tabulate, true, zero, ℕ, ◌&&◌, ◌+◌, ◌∙◌, ◌∷◌, ◌≡◌,
  ◌⊎◌,
}
use red_box_db.Floats.{Float}
use red_box_db.Graph.{GraphIndex, IsLive, flag}
use red_box_db.Engine.Search.{candidates, live_slots, scan_nearest, search, search_slot, slot_dist}
use red_box_db.Base.Int.{negsuc, to_int, ℤ}
use red_box_db.Metadata.{is_hnsw, ivf}
use red_box_db.Engine.{Engine}

pub contains-live_slots :
    (flags : List Bool) (slots : List ℕ) (t : ℕ)
    → contains (live_slots flags slots) t ≡ (contains slots t && not (flag flags t))
unfolding live_slots contains
contains-live_slots flags [] t = refl
contains-live_slots flags (s ∷ slots) t =
    ground (arith, contains-live_slots flags slots t, ==_iff s t)

contains-tabulate_from :
    (n i t : ℕ) → contains (tabulate n (λ j. i + j)) t ≡ (leb i t && ltb t (i + n))
unfolding contains
contains-tabulate_from zero i t = ground arith
contains-tabulate_from (suc n) i t =
    let shift : (λ (j : ℕ). i + suc j) ≡ (λ (j : ℕ). suc i + j) = fun_ext (λ j. omega arith) in
    rw shift (ground (arith, contains-tabulate_from n (suc i) t))

pub contains-tabulate : (n t : ℕ) → contains (tabulate n (λ j. j)) t ≡ ltb t n
contains-tabulate n t =
    let shift : (λ (j : ℕ). j) ≡ (λ (j : ℕ). 0 + j) = fun_ext (λ j. omega arith) in
    rw shift (ground (arith, contains-tabulate_from n 0 t))

module _ {F : Type 0} ⦃fl : Float F⦄ (dist : ℕ → F) where
  -- Whether the scan kept its first answer or found a less distant slot, nothing it saw is nearer.
  scan_nearest-some :
      (slots : List ℕ) (d : F) (best : Option ℕ) (s : ℕ)
      → scan_nearest dist slots d best ≡ some s
      → (best ≡ some s) × ((t : ℕ) → contains slots t ≡ true → fl.lt (dist t) d ≡ false)
        ⊎ (contains slots s ≡ true)
          × (fl.lt (dist s) d ≡ true)
          × ((t : ℕ) → contains slots t ≡ true → fl.lt (dist t) (dist s) ≡ false)
  unfolding scan_nearest contains
  scan_nearest-some [] d best s h = inl (h, λ t c. absurd (cc))
  scan_nearest-some (x ∷ slots) d best s h = elim (Bool-cases (fl.lt (dist x) d)) [
    | inl less ↦ elim (scan_nearest-some slots (dist x) (some x) s (rw less at h)) [
      | inl (e, all) ↦
          inr (ground arith, ground arith, λ t c. ground (arith, all t, fl.lt_irrefl (dist s)))
      | inr (c, l, all) ↦ inr (
        ground arith,
        fl.lt_trans (dist s) (dist x) d l less,
        λ t c'.
            ground (arith, all t, fl.lt_trans (dist s) (dist x) (dist s) l, fl.lt_irrefl (dist s)),
      )
    ]
    | inr more ↦ elim (scan_nearest-some slots d best s (rw more at h)) [
      | inl (e, all) ↦ inl (e, λ t c. ground (arith, all t))
      | inr (c, l, all) ↦
          inr (ground arith, l, λ t c'. ground (arith, all t, fl.lt_trans (dist x) (dist s) d))
    ]
  ]

  scan_nearest-none :
      (slots : List ℕ) (d : F) (best : Option ℕ)
      → scan_nearest dist slots d best ≡ none
      → (best ≡ none) × ((t : ℕ) → contains slots t ≡ true → fl.lt (dist t) d ≡ false)
  unfolding scan_nearest contains
  scan_nearest-none [] d best h = (h, λ t c. absurd (cc))
  scan_nearest-none (x ∷ slots) d best h = elim (Bool-cases (fl.lt (dist x) d)) [
    | inl less ↦ absurd (cc ((scan_nearest-none slots (dist x) (some x) (rw less at h)).0))
    | inr more ↦
        let r = scan_nearest-none slots d best (rw more at h) in (r.0, λ t c. ground (arith, r.1 t))
  ]

module _ {F G : Type 0} ⦃fl : Float F⦄ ⦃graph : GraphIndex F G⦄ where
  -- The IVF path before the clusters are initialised.
  pub record IsFlat (e : Engine F G) : Type 0 where
    pub kind : e.manager.index_type ≡ ivf
    pub flat : e.manager.is_initialized ≡ false

  pub candidates_flat :
      (e : Engine F G) (query : List F) (t : ℕ)
      → IsFlat e
      → contains (candidates e query) t
        ≡ (ltb t e.manager.vector_count && not (flag e.deleted_flags t))
  unfolding candidates
  candidates_flat e query t h = rw h.flat (
      contains-live_slots e.deleted_flags (tabulate e.manager.vector_count (λ i. i)) t
      ∙ ap (λ b. b && not (flag e.deleted_flags t)) (contains-tabulate e.manager.vector_count t))

  -- In an IVF database, the slot that `search` finds is one of the candidates, its distance is below
  -- the largest float, and no candidate is nearer.
  search_slot-some :
      (e : Engine F G) (query : List F) (s : ℕ)
      → e.manager.index_type ≡ ivf
      → search_slot e query ≡ some s
      → (contains (candidates e query) s ≡ true)
        × (fl.lt (slot_dist e query s) fl.max_value ≡ true)
        × ((t : ℕ)
            → contains (candidates e query) t ≡ true
            → fl.lt (slot_dist e query t) (slot_dist e query s) ≡ false)
  unfolding search_slot is_hnsw
  search_slot-some e query s kind found =
      let scan : scan_nearest (slot_dist e query) (candidates e query) fl.max_value none ≡ some s =
        ground arith in
      elim (scan_nearest-some (slot_dist e query) (candidates e query) fl.max_value none s scan) [
        | inl (e0, all) ↦ absurd (cc)
        | inr answer ↦ answer
      ]

  search_slot-none :
      (e : Engine F G) (query : List F) (t : ℕ)
      → IsFlat e
      → search_slot e query ≡ none
      → IsLive e.manager e.deleted_flags t
      → fl.lt (slot_dist e query t) fl.max_value ≡ false
  unfolding search_slot is_hnsw
  search_slot-none e query t h missing live =
      let scan : scan_nearest (slot_dist e query) (candidates e query) fl.max_value none ≡ none =
        ground (arith, h.kind) in
      (scan_nearest-none (slot_dist e query) (candidates e query) fl.max_value none scan).1 t
        (ground (arith, candidates_flat e query t h))

  -- The answer of a flat search, against all live slots.
  pub data Answer (e : Engine F G) (query : List F) (r : ℤ) : Type 0 where
    nearest_id :
        (s : ℕ)
        → IsLive e.manager e.deleted_flags s
        → r ≡ to_int (e.manager.id_block s)
        → ((t : ℕ)
            → IsLive e.manager e.deleted_flags t
            → fl.lt (slot_dist e query t) (slot_dist e query s) ≡ false)
        → Answer e query r
    nothing_near :
        r ≡ negsuc 0
        → ((t : ℕ)
            → IsLive e.manager e.deleted_flags t
            → fl.lt (slot_dist e query t) fl.max_value ≡ false)
        → Answer e query r

  -- Before the clusters are initialised, `search` answers with the id, as an `int`, of a live slot
  -- to which no other live slot is nearer; or with -1, and then no live slot has a distance below
  -- the largest float.
  pub search-Answer : (e : Engine F G) (query : List F) → IsFlat e → Answer e query (search e query)
  unfolding search
  search-Answer e query h = elim (Option-cases (search_slot e query)) [
    | inl missing ↦
        rw (missing, search)
          (nothing_near refl (λ t live. search_slot-none e query t h missing live))
    | inr (s, found) ↦
        let (member, below, least) = search_slot-some e query s h.kind found in
        rw (found, search)
          (nearest_id s (ground (arith, candidates_flat e query s h)) refl
            (λ t live. least t (ground (arith, candidates_flat e query t h))))
  ]
