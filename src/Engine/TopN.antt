-- ===== src/Engine/TopN.antt =====
-- The answer of `search_N` (src/engine.cpp): the nearest candidates in order.
use red_box_db.Base.{
  ==_ne, All, All-mono, All-zip, List, [], arith, false, length, min, refl, subst, times, ℕ, ◌+◌,
  ◌<◌, ◌∷◌, ◌≡◌, ◌≢◌, ◌≤◌,
}
use red_box_db.Floats.{Float}
use red_box_db.Metadata.{is_hnsw, ivf}
use red_box_db.Graph.{GraphIndex}
use red_box_db.Engine.{Engine}
use red_box_db.Engine.Search.{candidates, drain, offer_all, search_n_slots, seconds, slot_dist}
use red_box_db.Engine.Queue.{IsQueue, NotNearer}
use red_box_db.Engine.Keeps.{Keeps, offer_all-Keeps, seen_all-times}

module _ {F : Type 0} ⦃fl : Float F⦄ where
  module _ (dist : ℕ → F) where
    -- Each slot is no more distant than those behind it.
    abbrev pub Ascending : List ℕ → Type 0
    Ascending [] = Unit {0}
    Ascending (s ∷ slots) = All (λ t. NotNearer (dist s) (dist t)) slots × Ascending slots

    abbrev Front : List (F × ℕ) → List ℕ → Type 0
    Front [] result = Unit {0}
    Front (p ∷ pq) result = All (λ t. NotNearer p.0 (dist t)) result

    abbrev Own : F × ℕ → Type 0
    Own p = p.0 ≡ dist p.1

    Front-nil : (pq : List (F × ℕ)) → Front pq []
    Front-nil [] = tt
    Front-nil (p ∷ pq) = tt

    next-Front :
        (p : F × ℕ) (pq : List (F × ℕ)) (result : List ℕ)
        → Own p
        → IsQueue (p ∷ pq)
        → Front (p ∷ pq) result
        → Front pq (p.1 ∷ result)
    next-Front p [] result own h f = tt
    next-Front p (q ∷ pq) result own h f = (
      ground (arith, h.1.0),
      All-mono result (λ t k. ground (arith, h.1.0, fl.lt_cotrans (dist t) p.0 q.0 h.0)) f,
    )

    drain-Ascending :
        (pq : List (F × ℕ)) (result : List ℕ)
        → All Own pq
        → IsQueue pq
        → Front pq result
        → Ascending result
        → Ascending (drain pq result)
    unfolding drain
    drain-Ascending [] result own h f a = a
    drain-Ascending ((d, slot) ∷ pq) result own h f a =
        drain-Ascending pq (slot ∷ result) own.1 h.2 (next-Front (d, slot) pq result own.0 h f)
          (subst (λ x. All (λ t. NotNearer x (dist t)) result) own.0 f, a)

  drain-All :
      (P : ℕ → Type 0) (pq : List (F × ℕ)) (result : List ℕ)
      → All (λ (p : F × ℕ). P p.1) pq
      → All P result
      → All P (drain pq result)
  unfolding drain
  drain-All P [] result h r = r
  drain-All P ((d, slot) ∷ pq) result h r = drain-All P pq (slot ∷ result) h.1 (h.0, r)

  length-drain :
      (pq : List (F × ℕ)) (result : List ℕ) → length (drain pq result) ≡ length pq + length result
  unfolding drain
  length-drain [] result = omega arith
  length-drain ((d, slot) ∷ pq) result = omega (arith, length-drain pq (slot ∷ result))

  times-drain :
      (pq : List (F × ℕ)) (result : List ℕ) (t : ℕ)
      → times (drain pq result) t ≡ times (seconds pq) t + times result t
  unfolding drain times
  times-drain [] result t = omega arith
  times-drain ((d, slot) ∷ pq) result t = ground (arith, times-drain pq (slot ∷ result) t)

  -- The result of a search for the n nearest of the slots: n of them, or all if they are fewer, none
  -- more often than it is one of them, each no more distant than the next, and none that is left out
  -- nearer than one of the result.
  pub record IsNearestN (dist : ℕ → F) (slots : List ℕ) (n : ℕ) (result : List ℕ) : Type 0 where
    pub size : length result ≡ min n (length slots)
    pub ascending : Ascending dist result
    pub among : (t : ℕ) → times result t ≤ times slots t
    pub rest :
        (t : ℕ) → times result t < times slots t → All (λ s. NotNearer (dist s) (dist t)) result

  pub offer_all-IsNearestN :
      (dist : ℕ → F) (slots : List ℕ) (n : ℕ)
      → 0 < n
      → ((s : ℕ) → fl.is_nan (dist s) ≡ false)
      → IsNearestN dist slots n (drain (offer_all n dist slots []) [])
  unfolding times
  offer_all-IsNearestN dist slots n pos num =
      let pq = offer_all n dist slots [] in
      let start : Keeps n dist (λ _. 0) 0 [] = record {
        queue = tt;
        size = omega arith;
        own = tt;
        whole = λ t le. refl;
        often = λ t. omega arith;
        rest = λ t k. tt;
      } in
      let k = offer_all-Keeps n dist (λ _. 0) 0 slots [] pos num start in
      let seen = seen_all-times n dist (λ _. 0) slots in
      record {
        size = omega (arith, length-drain pq [], k.size);
        ascending =
            drain-Ascending dist pq [] (All-mono pq (λ p own. own.0) k.own) k.queue
              (Front-nil dist pq) tt;
        among = λ t. omega (arith, times-drain pq [] t, seen t, k.often t);
        rest = λ t fewer.
            drain-All (λ s. NotNearer (dist s) (dist t)) pq []
              (All-zip pq (λ p own less. subst (λ d. NotNearer d (dist t)) own.0 less) k.own
                (k.rest t (omega (arith, seen t, times-drain pq [] t, fewer))))
              tt;
      }

module _ {F G : Type 0} ⦃fl : Float F⦄ ⦃graph : GraphIndex F G⦄ where
  -- For N > 0 and distances that are numbers, the IVF path of `search_N` answers with min(N, number
  -- of candidates) candidates, nearest first, no slot more often than it is a candidate, and no
  -- candidate that it leaves out is nearer than one that it returns.
  pub search_n_slots-IsNearestN :
      (e : Engine F G) (query : List F) (n : ℕ)
      → e.manager.index_type ≡ ivf
      → e.manager.vector_count ≢ 0
      → 0 < n
      → ((s : ℕ) → fl.is_nan (slot_dist e query s) ≡ false)
      → IsNearestN (slot_dist e query) (candidates e query) n (search_n_slots e query n)
  unfolding search_n_slots is_hnsw
  search_n_slots-IsNearestN e query n kind some_slot pos num =
      let r = offer_all-IsNearestN (slot_dist e query) (candidates e query) n pos num in
      rw (kind, ==_ne e.manager.vector_count 0 some_slot) r
