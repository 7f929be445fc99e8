-- ===== src/Hnsw/Singles.antt =====
-- `search_layer_1` (include/redboxdb/hnsw_manager.hpp) in a graph whose edges lead to slots in use.
use red_box_db.Base.{
  Bool, Bool-cases, List, List-cases, arith, for_range_inv, get_or, get_or-All, inl, inr, leb,
  length, ltb, set, set-All, snoc-All, subst, suc, take-All, zero, ℕ, ◌&&◌, ◌+◌, ◌-◌, ◌<◌, ◌||◌,
  ◌∷◌, ◌≡◌, ◌⊎◌,
}
use red_box_db.Floats.{Float}
use red_box_db.Hnsw.{SearchResult, empty}
use red_box_db.Hnsw.Search.{beats_top, beyond_top, is_skipped}
use red_box_db.Hnsw.Single.{Single, expand_1, max_cand, meet_1, min_index, single_loop, swap_out}
use red_box_db.Hnsw.Choice.{AllSlots}
use red_box_db.Hnsw.Links.{Linked, Live, unskipped-Live}

module _ {F : Type 0} ⦃fl : Float F⦄ (n : ℕ) (flags : List Bool) (dist : ℕ → F) where
  -- The best slot is `empty` or live.
  pub record SingleInRange (s : Single F) : Type 0 where
    pub cand : AllSlots (λ s. s < n) s.cand
    pub best : (s.best.slot ≡ empty) ⊎ Live n flags s.best.slot

  meet_1-InRange :
      (gen ef nb : ℕ) (s : Single F)
      → (nb ≡ empty) ⊎ (nb < n)
      → SingleInRange s
      → SingleInRange (meet_1 dist flags gen ef nb s)
  unfolding meet_1
  meet_1-InRange gen ef nb s l h = elim (Bool-cases (is_skipped flags s.buf gen nb)) [
    | inl skipped ↦ rw skipped h
    | inr met ↦
        let live = unskipped-Live n flags s.buf gen nb l met in
        let r : SearchResult F = record { dist = dist nb; slot = nb } in
        let more = snoc-All (λ (r : SearchResult F). r.slot < n) s.cand r h.cand live.0 in
        elim (Bool-cases (ltb (length s.res) ef || beats_top (dist nb) s.res)) [
          | inl near ↦
              rw (met, near)
                (record {
                  cand = elim (Bool-cases (ltb (length s.cand) max_cand)) [
                    | inl room ↦ rw room more
                    | inr full ↦ rw full h.cand
                  ];
                  best = ground (arith, h.best);
                })
          | inr far ↦ rw (met, far) (record { cand = h.cand; best = h.best })
        ]
  ]

  expand_1-InRange :
      (gen ef : ℕ) (block : ℕ → ℕ) (lev mm : ℕ) (s : Single F)
      → Linked n block
      → SingleInRange s
      → SingleInRange (expand_1 dist flags gen ef block lev mm s)
  unfolding expand_1
  expand_1-InRange gen ef block lev mm s linked h =
      for_range_inv (λ _ s. SingleInRange s) _ mm s
        (λ i s lt h. meet_1-InRange gen ef (block (lev + i)) s (linked (lev + i)) h) h

  swapped-InRange :
      (s : Single F) (c : SearchResult F) (cs : List (SearchResult F)) (i : ℕ)
      → AllSlots (λ s. s < n) (c ∷ cs)
      → (s.best.slot ≡ empty) ⊎ Live n flags s.best.slot
      → SingleInRange (record s { cand = swap_out (c ∷ cs) i c })
  unfolding swap_out
  swapped-InRange s c cs i h best =
      let in_use = λ (r : SearchResult F). r.slot < n in
      let tail = length (c ∷ cs) - 1 in
      let last = get_or (c ∷ cs) tail c in
      let kept = set-All in_use (c ∷ cs) i last h (get_or-All in_use (c ∷ cs) tail c h h.0) in
      record { cand = take-All in_use tail (set (c ∷ cs) i last) kept; best = best }

  pub single_loop-InRange :
      (fuel gen ef : ℕ) (block start : ℕ → ℕ) (mm : ℕ) (s : Single F)
      → Linked n block
      → SingleInRange s
      → SingleInRange (single_loop fuel dist flags gen ef block start mm s)
  unfolding single_loop
  single_loop-InRange zero gen ef block start mm s linked h = h
  single_loop-InRange (suc fuel) gen ef block start mm s linked h = elim (List-cases s.cand) [
    | inl none_left ↦ rw none_left (record { cand = tt; best = h.best })
    | inr (c, cs, e) ↦
        let i = min_index (c ∷ cs) c in
        let f = get_or (c ∷ cs) i c in
        let popped = swapped-InRange s c cs i (subst (AllSlots (λ s. s < n)) e h.cand) h.best in
        elim (Bool-cases (leb ef (length s.res) && beyond_top f.dist s.res)) [
          | inl stop ↦ rw (e, stop) popped
          | inr go ↦
              rw (e, go)
                (single_loop-InRange fuel gen ef block start mm _ linked
                  (expand_1-InRange gen ef block (start f.slot) mm _ linked popped))
        ]
  ]
