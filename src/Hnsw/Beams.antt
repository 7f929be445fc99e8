-- ===== src/Hnsw/Beams.antt =====
-- The beam of `search_layer` (include/redboxdb/hnsw_manager.hpp): its results are live slots at their
-- distances, in order, each once.
use red_box_db.Base.{
  All, All-mono, All-zip, Bool, Bool-cases, List, List-cases, Pairwise, [], ap, arith, drop-All,
  drop-Pairwise, false, for_range_inv, get_or, get_or-set, if_elim, inl, inr, leb, length,
  length-drop, length-set, ltb, refl, set, subst, suc, sym, zero, ℕ, ◌&&◌, ◌+◌, ◌<◌, ◌||◌, ◌∷◌, ◌≡◌,
  ◌≢◌, ◌≤◌, ◌⊎◌,
}
use red_box_db.Floats.{Float}
use red_box_db.Hnsw.{SearchResult, empty, push_max}
use red_box_db.Hnsw.Search.{
  Beam, beam_loop, beats_top, beyond_top, expand, is_skipped, meet, push_bounded,
}
use red_box_db.Hnsw.Choice.{AllSlots, push_max-All, push_min-All}
use red_box_db.Hnsw.Links.{Linked, Live, unskipped-Live}

module _ {F : Type 0} ⦃fl : Float F⦄ where
  -- The one in front is not nearer than the other, and is another slot.
  abbrev pub Before : SearchResult F → SearchResult F → Type 0
  Before a b = (fl.lt a.dist b.dist ≡ false) × (a.slot ≢ b.slot)

  -- The distances to the slots in use are numbers.
  abbrev pub AreNumbers : ℕ → (ℕ → F) → Type 0
  AreNumbers n dist = (s : ℕ) → s < n → fl.is_nan (dist s) ≡ false

  -- What stands behind b stands behind a.
  Before-mono :
      (a b : SearchResult F) (rs : List (SearchResult F))
      → fl.is_nan b.dist ≡ false
      → fl.lt a.dist b.dist ≡ false
      → All (λ r. r.slot ≢ a.slot) rs
      → All (Before b) rs
      → All (Before a) rs
  Before-mono a b rs n le others h =
      All-zip rs
        (λ r other k.
          (ground (arith, k.0, fl.lt_cotrans a.dist b.dist r.dist n), λ e. other (sym e)))
        others h

  push_max-Pairwise :
      (a : SearchResult F) (rs : List (SearchResult F))
      → All (λ r. fl.is_nan r.dist ≡ false) rs
      → All (λ r. r.slot ≢ a.slot) rs
      → Pairwise Before rs
      → Pairwise Before (push_max a rs)
  unfolding push_max
  push_max-Pairwise a [] nums others h = (tt, tt)
  push_max-Pairwise a (b ∷ bs) nums others h = elim (Bool-cases (fl.lt a.dist b.dist)) [
    | inl less ↦
        let back : fl.lt b.dist a.dist ≡ false =
          ground (arith, less, fl.lt_trans a.dist b.dist a.dist, fl.lt_irrefl a.dist) in
        rw less (
          push_max-All (Before b) a bs (back, others.0) h.0,
          push_max-Pairwise a bs nums.1 others.1 h.1,
        )
    | inr more ↦
        rw more (((more, λ e. others.0 (sym e)), Before-mono a b bs nums.0 more others.1 h.0), h)
  ]

  length-push_max :
      (a : SearchResult F) (rs : List (SearchResult F)) → length (push_max a rs) ≡ suc (length rs)
  unfolding push_max
  length-push_max a [] = refl
  length-push_max a (b ∷ bs) = ground (arith, length-push_max a bs)

  length-push_bounded :
      (ef : ℕ) (a : SearchResult F) (rs : List (SearchResult F))
      → length rs ≤ ef
      → length (push_bounded ef a rs) ≤ ef
  unfolding push_bounded
  length-push_bounded ef a rs h =
      ground (arith, length-push_max a rs, length-drop 1 (push_max a rs))

  push_bounded-All :
      (P : SearchResult F → Type 0) (ef : ℕ) (a : SearchResult F) (rs : List (SearchResult F))
      → P a
      → All P rs
      → All P (push_bounded ef a rs)
  unfolding push_bounded
  push_bounded-All P ef a rs p h =
      let pushed = push_max-All P a rs p h in
      if_elim (All P) (ltb ef (length (push_max a rs))) _ _
        (λ over. drop-All P 1 (push_max a rs) pushed) (λ fits. pushed)

  push_bounded-Pairwise :
      (ef : ℕ) (a : SearchResult F) (rs : List (SearchResult F))
      → All (λ r. fl.is_nan r.dist ≡ false) rs
      → All (λ r. r.slot ≢ a.slot) rs
      → Pairwise Before rs
      → Pairwise Before (push_bounded ef a rs)
  unfolding push_bounded
  push_bounded-Pairwise ef a rs nums others h =
      let pushed = push_max-Pairwise a rs nums others h in
      if_elim (Pairwise Before) (ltb ef (length (push_max a rs))) _ _
        (λ over. drop-Pairwise Before 1 (push_max a rs) pushed) (λ fits. pushed)

module _ {F : Type 0} ⦃fl : Float F⦄ (n : ℕ) (flags : List Bool) (dist : ℕ → F) (gen ef : ℕ) where
  -- A live slot with its distance, that has been visited.
  abbrev pub IsResult : List ℕ → SearchResult F → Type 0
  IsResult buf r = (r.dist ≡ dist r.slot) × Live n flags r.slot × (get_or buf r.slot 0 ≡ gen)

  pub record IsBeam (b : Beam F) : Type 0 where
    pub sized : n ≤ length b.buf
    pub cands : AllSlots (λ s. s < n) b.cands
    pub results : All (IsResult b.buf) b.results
    pub ordered : Pairwise Before b.results
    pub few : length b.results ≤ ef

  visit-IsResult :
      (nb : ℕ) (buf : List ℕ) (rs : List (SearchResult F))
      → nb < length buf
      → All (IsResult buf) rs
      → All (IsResult (set buf nb gen)) rs
  visit-IsResult nb buf rs lt h =
      All-mono rs (λ r k. (k.0, k.1, ground (arith, k.2, get_or-set buf nb r.slot gen 0 lt))) h

  meet-IsBeam :
      (nb : ℕ) (b : Beam F)
      → AreNumbers n dist
      → (nb ≡ empty) ⊎ (nb < n)
      → IsBeam b
      → IsBeam (meet dist flags gen ef nb b)
  unfolding meet
  meet-IsBeam nb b nums l h = elim (Bool-cases (is_skipped flags b.buf gen nb)) [
    | inl skipped ↦ rw skipped h
    | inr met ↦
        let live = unskipped-Live n flags b.buf gen nb l met in
        let lt : nb < length b.buf = omega (arith, live.0, h.sized) in
        let unseen : get_or b.buf nb 0 ≢ gen = unfold is_skipped in ground (arith, met) in
        let r : SearchResult F = record { dist = dist nb; slot = nb } in
        let visited = visit-IsResult nb b.buf b.results lt h.results in
        let sized : n ≤ length (set b.buf nb gen) =
          omega (arith, h.sized, length-set b.buf nb gen) in
        elim (Bool-cases (ltb (length b.results) ef || beats_top (dist nb) b.results)) [
          | inl near ↦
              let new : IsResult (set b.buf nb gen) r =
                (refl, live, ground (arith, get_or-set b.buf nb nb gen 0 lt)) in
              rw (met, near)
                (record {
                  sized = sized;
                  cands = push_min-All (λ c. c.slot < n) r b.cands live.0 h.cands;
                  results =
                      push_bounded-All (IsResult (set b.buf nb gen)) ef r b.results new visited;
                  ordered =
                      push_bounded-Pairwise ef r b.results
                        (All-mono b.results (λ c k. rw k.0 (nums c.slot k.1.0)) h.results)
                        (All-mono b.results
                          (λ c k e. unseen (subst (λ s. get_or b.buf s 0 ≡ gen) e k.2)) h.results)
                        h.ordered;
                  few = length-push_bounded ef r b.results h.few;
                })
          | inr far ↦
              rw (met, far)
                (record {
                  sized = sized;
                  cands = h.cands;
                  results = visited;
                  ordered = h.ordered;
                  few = h.few;
                })
        ]
  ]

  -- What a neighbour and a pop keep, the loop keeps.
  pub beam_loop_inv :
      (P : Beam F → Type 0)
      → ((nb : ℕ) (b : Beam F) → (nb ≡ empty) ⊎ (nb < n) → P b → P (meet dist flags gen ef nb b))
      → ((b : Beam F) (f : SearchResult F) (rest : List (SearchResult F))
          → b.cands ≡ f ∷ rest
          → P b
          → P (record b { cands = rest }))
      → (fuel : ℕ) (block start : ℕ → ℕ) (mm : ℕ) (b : Beam F) → Linked n block
      → P b
      → P (beam_loop fuel dist flags gen ef block start mm b)
  unfolding beam_loop expand
  beam_loop_inv P met popped zero block start mm b linked h = h
  beam_loop_inv P met popped (suc fuel) block start mm b linked h = elim (List-cases b.cands) [
    | inl none_left ↦
        let same : b ≡ record b { cands = [] } =
          ap (λ (cs : List (SearchResult F)). record b { cands = cs }) none_left in
        rw none_left (subst P same h)
    | inr (f, rest, e) ↦
        let p = popped b f rest e h in
        elim (Bool-cases (leb ef (length b.results) && beyond_top f.dist b.results)) [
          | inl stop ↦ rw (e, stop) p
          | inr go ↦
              rw (e, go)
                (beam_loop_inv P met popped fuel block start mm _ linked (
                  for_range_inv (λ _ b. P b) _ mm _
                    (λ i b lt h. met (block (start f.slot + i)) b (linked (start f.slot + i)) h) p))
        ]
  ]

  pub beam_loop-IsBeam :
      (fuel : ℕ) (block start : ℕ → ℕ) (mm : ℕ) (b : Beam F)
      → AreNumbers n dist
      → Linked n block
      → IsBeam b
      → IsBeam (beam_loop fuel dist flags gen ef block start mm b)
  beam_loop-IsBeam fuel block start mm b nums linked h =
      beam_loop_inv IsBeam (λ nb b l h. meet-IsBeam nb b nums l h)
        (λ b f rest e h. record {
          sized = h.sized;
          cands = (subst (AllSlots (λ s. s < n)) e h.cands).1;
          results = h.results;
          ordered = h.ordered;
          few = h.few;
        })
        fuel block start mm b linked h
