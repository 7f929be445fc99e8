-- ===== src/Engine/Keeps.antt =====
-- What the priority queue of `search_N` (src/engine.cpp) keeps of the slots that it has seen.
use red_box_db.Base.{
  All, All-mono, Bool-cases, List, [], arith, false, ge_of_ltb, if◌then◌else◌, inl, inr, length,
  ltb, ltb→lt, lt→ltb, min, refl, subst, suc, sym, times, true, ℕ, ◌+◌, ◌<◌, ◌==◌, ◌∷◌, ◌≡◌, ◌≤◌,
}
use red_box_db.Floats.{Float}
use red_box_db.Engine.Search.{offer, offer_all, push_pair, seconds}
use red_box_db.Engine.Queue.{
  IsQueue, NotNearer, behind, length-push_pair, lt_asymm, push_pair-All, push_pair-IsQueue,
  times-push_pair,
}

module _ {F : Type 0} ⦃fl : Float F⦄ where
  module _ (n : ℕ) (dist : ℕ → F) where
    -- The queue after `count` slots, each as often as `seen` tells.
    pub record Keeps (seen : ℕ → ℕ) (count : ℕ) (pq : List (F × ℕ)) : Type 0 where
      pub queue : IsQueue pq
      pub size : length pq ≡ min n count
      pub own : All (λ (p : F × ℕ). (p.0 ≡ dist p.1) × (0 < seen p.1)) pq
      pub whole : (t : ℕ) → count ≤ n → times (seconds pq) t ≡ seen t
      pub often : (t : ℕ) → times (seconds pq) t ≤ seen t
      pub rest :
          (t : ℕ) → times (seconds pq) t < seen t → All (λ (p : F × ℕ). NotNearer p.0 (dist t)) pq

    abbrev also : (ℕ → ℕ) → ℕ → ℕ → ℕ
    also seen s t = if s == t then suc (seen t) else seen t

    own_also :
        (seen : ℕ → ℕ) (s : ℕ) (ps : List (F × ℕ))
        → All (λ (p : F × ℕ). (p.0 ≡ dist p.1) × (0 < seen p.1)) ps
        → All (λ (p : F × ℕ). (p.0 ≡ dist p.1) × (0 < also seen s p.1)) ps
    own_also seen s ps h = All-mono ps (λ p k. (k.0, ground arith)) h

    own_push :
        (seen : ℕ → ℕ) (s : ℕ) (ps : List (F × ℕ))
        → All (λ (p : F × ℕ). (p.0 ≡ dist p.1) × (0 < seen p.1)) ps
        → All (λ (p : F × ℕ). (p.0 ≡ dist p.1) × (0 < also seen s p.1)) (push_pair (dist s, s) ps)
    own_push seen s ps h =
        push_pair-All _ (dist s, s) ps (refl, ground arith) (own_also seen s ps h)

    room-Keeps :
        (seen : ℕ → ℕ) (count : ℕ) (pq : List (F × ℕ)) (s : ℕ)
        → length pq < n
        → fl.is_nan (dist s) ≡ false
        → Keeps seen count pq
        → Keeps (also seen s) (suc count) (push_pair (dist s, s) pq)
    room-Keeps seen count pq s room num h =
        let few : count < n = omega (arith, h.size) in
        let held = times-push_pair (dist s, s) pq in
        record {
          queue = push_pair-IsQueue (dist s, s) pq num h.queue;
          size = omega (arith, length-push_pair (dist s, s) pq, h.size);
          own = own_push seen s pq h.own;
          whole = λ t le. ground (arith, held t, h.whole t);
          often = λ t. ground (arith, held t, h.often t);
          rest = λ t k. absurd (ground (arith, held t, h.whole t));
        }

    replaced-Keeps :
        (seen : ℕ → ℕ) (count : ℕ) (top : F × ℕ) (ps : List (F × ℕ)) (s : ℕ)
        → n ≤ suc (length ps)
        → fl.lt (dist s) top.0 ≡ true
        → fl.is_nan (dist s) ≡ false
        → Keeps seen count (top ∷ ps)
        → Keeps (also seen s) (suc count) (push_pair (dist s, s) ps)
    unfolding times
    replaced-Keeps seen count top ps s full less num h =
        let many : n ≤ count = omega (arith, h.size) in
        let held = times-push_pair (dist s, s) ps in
        record {
          queue = push_pair-IsQueue (dist s, s) ps num h.queue.2;
          size = omega (arith, length-push_pair (dist s, s) ps, h.size);
          own = own_push seen s ps h.own.1;
          whole = λ t le. absurd (omega arith);
          often = λ t. ground (arith, held t, h.often t);
          rest = λ t k. elim (Bool-cases (top.1 == t)) [
            | inl is_top ↦
                let same : dist t ≡ top.0 = ground (arith, h.own.0) in
                rw same (
                  push_pair-All (λ p. NotNearer p.0 top.0) (dist s, s) ps
                    (lt_asymm (dist s) top.0 less) h.queue.1)
            | inr other ↦
                let behind_all = h.rest t (ground (arith, held t)) in
                push_pair-All (λ p. NotNearer p.0 (dist t)) (dist s, s) ps
                  (ground (arith, behind_all.0, fl.lt_trans (dist t) (dist s) top.0)) behind_all.1
          ];
        }

    refused-Keeps :
        (seen : ℕ → ℕ) (count : ℕ) (top : F × ℕ) (ps : List (F × ℕ)) (s : ℕ)
        → n ≤ suc (length ps)
        → fl.lt (dist s) top.0 ≡ false
        → Keeps seen count (top ∷ ps)
        → Keeps (also seen s) (suc count) (top ∷ ps)
    unfolding times
    refused-Keeps seen count top ps s full more h =
        let many : n ≤ count = omega (arith, h.size) in
        record {
          queue = h.queue;
          size = omega (arith, h.size);
          own = own_also seen s (top ∷ ps) h.own;
          whole = λ t le. absurd (omega arith);
          often = λ t. ground (arith, h.often t);
          rest = λ t k. elim (Bool-cases (s == t)) [
            | inl is_s ↦
                let same : t ≡ s = ground arith in
                subst (λ u. All (λ (p : F × ℕ). NotNearer p.0 (dist u)) (top ∷ ps)) (sym same)
                  (more, behind (dist s, s) top ps h.queue.0 more h.queue.1)
            | inr other ↦ h.rest t (ground arith)
          ];
        }

    offer-Keeps :
        (seen : ℕ → ℕ) (count : ℕ) (pq : List (F × ℕ)) (s : ℕ)
        → 0 < n
        → fl.is_nan (dist s) ≡ false
        → Keeps seen count pq
        → Keeps (also seen s) (suc count) (offer n (dist s, s) pq)
    unfolding offer push_pair
    offer-Keeps seen count [] s pos num h =
        rw (lt→ltb _ _ pos) (room-Keeps seen count [] s pos num h)
    offer-Keeps seen count (top ∷ ps) s pos num h = elim (Bool-cases (ltb (length (top ∷ ps)) n)) [
      | inl room ↦ rw room (room-Keeps seen count (top ∷ ps) s (ltb→lt _ _ room) num h)
      | inr full ↦ elim (Bool-cases (fl.lt (dist s) top.0)) [
        | inl less ↦
            rw (full, less) (replaced-Keeps seen count top ps s (ge_of_ltb _ _ full) less num h)
        | inr more ↦ rw (full, more) (refused-Keeps seen count top ps s (ge_of_ltb _ _ full) more h)
      ]
    ]

    abbrev pub seen_all : (ℕ → ℕ) → List ℕ → ℕ → ℕ
    seen_all seen [] = seen
    seen_all seen (s ∷ slots) = seen_all (also seen s) slots

    pub seen_all-times :
        (seen : ℕ → ℕ) (slots : List ℕ) (t : ℕ) → seen_all seen slots t ≡ times slots t + seen t
    unfolding times
    seen_all-times seen [] t = omega arith
    seen_all-times seen (s ∷ slots) t = ground (arith, seen_all-times (also seen s) slots t)

    pub offer_all-Keeps :
        (seen : ℕ → ℕ) (count : ℕ) (slots : List ℕ) (pq : List (F × ℕ))
        → 0 < n
        → ((s : ℕ) → fl.is_nan (dist s) ≡ false)
        → Keeps seen count pq
        → Keeps (seen_all seen slots) (count + length slots) (offer_all n dist slots pq)
    unfolding offer_all
    offer_all-Keeps seen count [] pq pos num h =
        let e : count ≡ count + 0 = omega arith in rw (← e) h
    offer_all-Keeps seen count (s ∷ slots) pq pos num h =
        let e : suc count + length slots ≡ count + suc (length slots) = omega arith in
        rw (← e) (
          offer_all-Keeps (also seen s) (suc count) slots (offer n (dist s, s) pq) pos num
            (offer-Keeps seen count pq s pos (num s) h))
