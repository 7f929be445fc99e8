-- ===== src/Engine/History.antt =====
-- Any sequence of operations on an open database refines the same sequence on a map.
use red_box_db.Base.{
  List, Option, [], arith, fun_ext, if◌then◌else◌, length, lt→ltb, none, refl, some, ℕ, ◌%◌, ◌&&◌,
  ◌+◌, ◌<◌, ◌==◌, ◌∷◌, ◌≡◌, ◌≤◌,
}
use red_box_db.Floats.{Double, Float}
use red_box_db.Engine.{Engine, contents, set_hnsw_ef_search, set_num_probes, update}
use red_box_db.Cluster.{Draws}
use red_box_db.Graph.{GraphIndex}
use red_box_db.Engine.Insert.{insert, insert_auto}
use red_box_db.Engine.Tombstones.{DiskCalls, remove}
use red_box_db.Engine.Erase.{is_some, remove-Removed, update-Updated}
use red_box_db.Engine.Valid.{SameStore}
use red_box_db.Engine.Store.{IsStore, SameStore-IsStore, SameStore-contents}
use red_box_db.Engine.Refine.{insert-Inserted}
use red_box_db.Engine.Grows.{insert-Grows, remove-Grows, ticked, ticked-IsStore, update-Grows}

pub data Call (F : Type 0) : Type 0 where
  inserts : ℕ → List F → Call F
  inserts_auto : List F → Call F
  removes : ℕ → DiskCalls → Call F
  updates : ℕ → List F → Call F
  sets_num_probes : ℕ → Call F
  sets_hnsw_ef : ℕ → Call F

-- The specification: a map and the next automatic id, with no capacity.
pub record Spec (F : Type 0) : Type 0 where
  pub vectors : ℕ → Option (List F)
  pub next : ℕ

module _ {F : Type 0} where
  abbrev pub put : Spec F → ℕ → List F → Spec F
  put s id vec = record s { vectors = λ j. if id == j then some vec else s.vectors j }

  unfoldable pub spec_step : Spec F → Call F → Spec F
  spec_step s (inserts id vec) = put s id vec
  spec_step s (inserts_auto vec) = record (put s s.next vec) {
    next = (s.next + 1) % 18446744073709551616;
  }
  spec_step s (removes id calls) = record s { vectors = λ j. if id == j then none else s.vectors j }
  spec_step s (updates id vec) = record s {
    vectors = λ j. if id == j && is_some (s.vectors id) then some vec else s.vectors j;
  }
  spec_step s (sets_num_probes p) = s
  spec_step s (sets_hnsw_ef ef) = s

  unfoldable pub spec_run : Spec F → List (Call F) → Spec F
  unfolding spec_step
  spec_run s [] = s
  spec_run s (c ∷ cs) = spec_run (spec_step s c) cs

  -- Every vector has the dimension.
  abbrev pub IsSized : ℕ → Call F → Type 0
  IsSized dim (inserts id vec) = length vec ≡ dim
  IsSized dim (inserts_auto vec) = length vec ≡ dim
  IsSized dim (removes id calls) = Unit {0}
  IsSized dim (updates id vec) = length vec ≡ dim
  IsSized dim (sets_num_probes p) = Unit {0}
  IsSized dim (sets_hnsw_ef ef) = Unit {0}

  abbrev pub AllSized : ℕ → List (Call F) → Type 0
  AllSized dim [] = Unit {0}
  AllSized dim (c ∷ cs) = IsSized dim c × AllSized dim cs

  -- The slots that a call may take.
  abbrev pub cost : Call F → ℕ
  cost (inserts id vec) = 1
  cost (inserts_auto vec) = 1
  cost (removes id calls) = 0
  cost (updates id vec) = 0
  cost (sets_num_probes p) = 0
  cost (sets_hnsw_ef ef) = 0

  abbrev pub costs : List (Call F) → ℕ
  costs [] = 0
  costs (c ∷ cs) = cost c + costs cs

module _ {F G : Type 0} ⦃fl : Float F⦄ ⦃db : Double F⦄ ⦃draws : Draws F⦄
    ⦃graph : GraphIndex F G⦄ where
  unfoldable pub step : Engine F G → Call F → Engine F G
  unfolding insert insert_auto remove update set_num_probes set_hnsw_ef_search
  step e (inserts id vec) = insert e id vec
  step e (inserts_auto vec) = (insert_auto e vec).1
  step e (removes id calls) = (remove e id calls).0
  step e (updates id vec) = (update e id vec).0
  step e (sets_num_probes p) = set_num_probes e p
  step e (sets_hnsw_ef ef) = set_hnsw_ef_search e ef

  unfoldable pub run : Engine F G → List (Call F) → Engine F G
  unfolding step
  run e [] = e
  run e (c ∷ cs) = run (step e c) cs

  pub abstract : Engine F G → Spec F
  abstract e = record { vectors = contents e; next = e.manager.next_id }

  -- One operation, its invariant, and the map after it.
  record Stepped (e : Engine F G) (c : Call F) : Type 0 where
    valid : IsStore (step e c)
    refines : abstract (step e c) ≡ spec_step (abstract e) c
    grows : (step e c).manager.vector_count ≤ e.manager.vector_count + cost c
    capacity : (step e c).manager.max_capacity ≡ e.manager.max_capacity
    dim : (step e c).dimension ≡ e.dimension

  insert-vectors :
      (e : Engine F G) (id : ℕ) (vec : List F)
      → IsStore e
      → length vec ≡ e.dimension
      → e.manager.vector_count < e.manager.max_capacity
      → contents (insert e id vec) ≡ (put (abstract e) id vec).vectors
  unfolding abstract
  insert-vectors e id vec h l lt =
      let placed = lt→ltb _ _ lt in
      fun_ext (λ j. ground (arith, (insert-Inserted e id vec h l).reads j))

  step_insert :
      (e : Engine F G) (id : ℕ) (vec : List F)
      → IsStore e
      → length vec ≡ e.dimension
      → e.manager.vector_count < e.manager.max_capacity
      → Stepped e (inserts id vec)
  unfolding step spec_step abstract
  step_insert e id vec h l lt =
      let g = insert-Grows e id vec in
      record {
        valid = (insert-Inserted e id vec h l).valid;
        refines = λ i. record { vectors = insert-vectors e id vec h l lt i; next = g.auto i };
        grows = g.count;
        capacity = g.capacity;
        dim = g.dim;
      }

  step_insert_auto :
      (e : Engine F G) (vec : List F)
      → IsStore e
      → length vec ≡ e.dimension
      → e.manager.vector_count < e.manager.max_capacity
      → Stepped e (inserts_auto vec)
  unfolding step spec_step abstract insert_auto ticked contents
  step_insert_auto e vec h l lt =
      let id = e.manager.next_id in
      let h' = ticked-IsStore e h in
      let g = insert-Grows (ticked e) id vec in
      record {
        valid = (insert-Inserted (ticked e) id vec h' l).valid;
        refines =
            λ i. record { vectors = insert-vectors (ticked e) id vec h' l lt i; next = g.auto i };
        grows = g.count;
        capacity = g.capacity;
        dim = g.dim;
      }

  step_remove :
      (e : Engine F G) (id : ℕ) (calls : DiskCalls) → IsStore e → Stepped e (removes id calls)
  unfolding step spec_step abstract
  step_remove e id calls h =
      let g = remove-Grows e id calls in
      let r = remove-Removed e id calls h in
      record {
        valid = r.valid;
        refines = λ i. record { vectors = fun_ext r.reads i; next = g.auto i };
        grows = g.count;
        capacity = g.capacity;
        dim = g.dim;
      }

  step_update :
      (e : Engine F G) (id : ℕ) (vec : List F)
      → IsStore e
      → length vec ≡ e.dimension
      → Stepped e (updates id vec)
  unfolding step spec_step abstract
  step_update e id vec h l =
      let g = update-Grows e id vec in
      let r = update-Updated e id vec h l in
      record {
        valid = r.valid;
        refines = λ i. record { vectors = fun_ext r.reads i; next = g.auto i };
        grows = g.count;
        capacity = g.capacity;
        dim = g.dim;
      }

  step_settings :
      (e e' : Engine F G) → SameStore e e' → IsStore e → IsStore e' × (abstract e' ≡ abstract e)
  unfolding abstract
  step_settings e e' s h = (
    SameStore-IsStore s h,
    λ i. record { vectors = fun_ext (SameStore-contents s) i; next = s.rows.auto i },
  )

  step_lem :
      (e : Engine F G) (c : Call F)
      → IsStore e
      → IsSized e.dimension c
      → e.manager.vector_count + cost c ≤ e.manager.max_capacity
      → Stepped e c
  unfolding step spec_step
  step_lem e (inserts id vec) h l fits = step_insert e id vec h l (omega arith)
  step_lem e (inserts_auto vec) h l fits = step_insert_auto e vec h l (omega arith)
  step_lem e (removes id calls) h l fits = step_remove e id calls h
  step_lem e (updates id vec) h l fits = step_update e id vec h l
  step_lem e (sets_num_probes p) h l fits =
      let s = step_settings e (set_num_probes e p) (ground arith) h in
      record { valid = s.0; refines = s.1; grows = omega arith; capacity = refl; dim = refl }
  step_lem e (sets_hnsw_ef ef) h l fits =
      let s = step_settings e (set_hnsw_ef_search e ef) (ground arith) h in
      record { valid = s.0; refines = s.1; grows = omega arith; capacity = refl; dim = refl }

  -- Any sequence of operations with vectors of the database's dimension, and with no more insertions
  -- than there are free slots, keeps the invariant, and does to the ids and vectors that are read
  -- and to the next automatic id what it does to the map.
  pub run-refines :
      (e : Engine F G) (cs : List (Call F))
      → IsStore e
      → AllSized e.dimension cs
      → e.manager.vector_count + costs cs ≤ e.manager.max_capacity
      → IsStore (run e cs) × (abstract (run e cs) ≡ spec_run (abstract e) cs)
  unfolding run spec_run
  run-refines e [] h l fits = (h, refl)
  run-refines e (c ∷ cs) h l fits =
      let s = step_lem e c h l.0 (omega arith) in
      let r =
        run-refines (step e c) cs s.valid (rw s.dim l.1) (omega (arith, s.grows, s.capacity)) in
      (r.0, rw (← s.refines) r.1)
