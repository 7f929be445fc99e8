-- ===== src/Hnsw/Links.antt =====
-- Where the searches of include/redboxdb/hnsw_manager.hpp lead, in a graph whose edges lead to slots
-- in use.
use red_box_db.Base.{
  Bool, Bool-cases, List, List-cases, arith, drop-All, false, for_range_inv, inl, inr, leb, length,
  ltb, refl, subst, suc, zero, ℕ, ◌&&◌, ◌+◌, ◌<◌, ◌||◌, ◌≡◌, ◌⊎◌,
}
use red_box_db.Floats.{Float}
use red_box_db.Graph.{flag}
use red_box_db.Hnsw.{SearchResult, empty, push_max}
use red_box_db.Hnsw.Search.{
  Beam, Best, beam_loop, beats_top, best_neighbor, beyond_top, closer_neighbor, expand, improve,
  is_skipped, meet, push_bounded,
}
use red_box_db.Hnsw.Choice.{AllSlots, push_max-All, push_min-All}

-- Every edge is empty or leads to a slot below n.
abbrev pub Linked : ℕ → (ℕ → ℕ) → Type 0
Linked n block = (i : ℕ) → (block i ≡ empty) ⊎ (block i < n)

-- The slot is below n, and not deleted.
abbrev pub Live : ℕ → List Bool → ℕ → Type 0
Live n flags s = (s < n) × (flag flags s ≡ false)

-- A neighbour that is not skipped is live.
pub unskipped-Live :
    (n : ℕ) (flags : List Bool) (buf : List ℕ) (gen nb : ℕ)
    → (nb ≡ empty) ⊎ (nb < n)
    → is_skipped flags buf gen nb ≡ false
    → Live n flags nb
unfolding is_skipped
unskipped-Live n flags buf gen nb l h = ground arith

module _ {F : Type 0} ⦃fl : Float F⦄ (n : ℕ) (flags : List Bool) (dist : ℕ → F) where
  pub record InRange (b : Beam F) : Type 0 where
    pub cands : AllSlots (λ s. s < n) b.cands
    pub results : AllSlots (Live n flags) b.results

  push_bounded-Live :
      (ef : ℕ) (a : SearchResult F) (rs : List (SearchResult F))
      → Live n flags a.slot
      → AllSlots (Live n flags) rs
      → AllSlots (Live n flags) (push_bounded ef a rs)
  unfolding push_bounded
  push_bounded-Live ef a rs l h =
      let pushed = push_max-All (λ r. Live n flags r.slot) a rs l h in
      elim (Bool-cases (ltb ef (length (push_max a rs)))) [
        | inl over ↦ rw over (drop-All _ 1 (push_max a rs) pushed)
        | inr fits ↦ rw fits pushed
      ]

  meet-InRange :
      (gen ef nb : ℕ) (b : Beam F)
      → (nb ≡ empty) ⊎ (nb < n)
      → InRange b
      → InRange (meet dist flags gen ef nb b)
  unfolding meet
  meet-InRange gen ef nb b l h = elim (Bool-cases (is_skipped flags b.buf gen nb)) [
    | inl skipped ↦ rw skipped h
    | inr met ↦
        let live = unskipped-Live n flags b.buf gen nb l met in
        let r : SearchResult F = record { dist = dist nb; slot = nb } in
        elim (Bool-cases (ltb (length b.results) ef || beats_top (dist nb) b.results)) [
          | inl near ↦
              rw (met, near)
                (record {
                  cands = push_min-All (λ c. c.slot < n) r b.cands live.0 h.cands;
                  results = push_bounded-Live ef r b.results live h.results;
                })
          | inr far ↦ rw (met, far) (record { cands = h.cands; results = h.results })
        ]
  ]

  expand-InRange :
      (gen ef : ℕ) (block : ℕ → ℕ) (lev mm : ℕ) (b : Beam F)
      → Linked n block
      → InRange b
      → InRange (expand dist flags gen ef block lev mm b)
  unfolding expand
  expand-InRange gen ef block lev mm b linked h =
      for_range_inv (λ _ b. InRange b) _ mm b
        (λ i b lt h. meet-InRange gen ef (block (lev + i)) b (linked (lev + i)) h) h

  pub beam_loop-InRange :
      (fuel gen ef : ℕ) (block start : ℕ → ℕ) (mm : ℕ) (b : Beam F)
      → Linked n block
      → InRange b
      → InRange (beam_loop fuel dist flags gen ef block start mm b)
  unfolding beam_loop
  beam_loop-InRange zero gen ef block start mm b linked h = h
  beam_loop-InRange (suc fuel) gen ef block start mm b linked h = elim (List-cases b.cands) [
    | inl none_left ↦ rw none_left (record { cands = tt; results = h.results })
    | inr (f, rest, e) ↦
        let popped : InRange (record b { cands = rest }) = record {
          cands = (subst (AllSlots (λ s. s < n)) e h.cands).1;
          results = h.results;
        } in
        elim (Bool-cases (leb ef (length b.results) && beyond_top f.dist b.results)) [
          | inl stop ↦ rw (e, stop) popped
          | inr go ↦
              rw (e, go)
                (beam_loop-InRange fuel gen ef block start mm _ linked
                  (expand-InRange gen ef block (start f.slot) mm _ linked popped))
        ]
  ]

  closer_neighbor-Linked :
      (nb : ℕ) (b : Best F)
      → (nb ≡ empty) ⊎ (nb < n)
      → (b.slot ≡ empty) ⊎ (b.slot < n)
      → ((closer_neighbor dist flags nb b).slot ≡ empty)
        ⊎ ((closer_neighbor dist flags nb b).slot < n)
  unfolding closer_neighbor
  closer_neighbor-Linked nb b l h = ground arith

  pub improve-lt :
      (fuel : ℕ) (block start : ℕ → ℕ) (mm curr : ℕ) (d : F)
      → Linked n block
      → curr < n
      → improve fuel dist flags block start mm curr d < n
  unfolding improve best_neighbor
  improve-lt zero block start mm curr d linked lt = lt
  improve-lt (suc fuel) block start mm curr d linked lt =
      let b = best_neighbor dist flags block (start curr) mm d in
      let in_use : (b.slot ≡ empty) ⊎ (b.slot < n) =
        for_range_inv (λ _ (b : Best F). (b.slot ≡ empty) ⊎ (b.slot < n)) _ mm _
          (λ i b k h. closer_neighbor-Linked (block (start curr + i)) b (linked (start curr + i)) h)
          (inl refl) in
      ground (arith, improve-lt fuel block start mm b.slot b.dist linked)
