-- ===== src/Hnsw/Index.antt =====
-- The operations of include/redboxdb/hnsw_manager.hpp as the index that src/engine.cpp works with.
use red_box_db.Base.{
  Bool, List, Option, [], arith, if_elim, if◌then◌else◌, min, none, refl, some, true, update_map, ℕ,
  ◌<◌, ◌==◌, ◌∙◌, ◌≡◌, ◌≢◌,
}
use red_box_db.Floats.{Float}
use red_box_db.Storage.Size.{max_level}
use red_box_db.Storage.{Manager}
use red_box_db.Graph.{GraphIndex, IsLinked, IsLive, SameRows}
use red_box_db.Hnsw.{empty}
use red_box_db.Hnsw.Search.{Visits, descend, hnsw_search}
use red_box_db.Hnsw.Insert.{
  Shared, Wiring, first_insert, hnsw_insert, later_insert, raise_entry, wire,
}
use red_box_db.Hnsw.Found.{descend-lt, hnsw_search_1-Live}
use red_box_db.Hnsw.Wired.{IsWired, raise_entry-IsLinked, raise_entry-SameRows, wire-IsWired}
use red_box_db.Hnsw.Single.{hnsw_search_1}

-- The buffers of a search are its own.
abbrev pub unvisited : Visits
unvisited = record { buf = []; gen = 0 }

unfoldable pub slot_or_none : ℕ → Option ℕ
slot_or_none s = if s == empty then none else some s

slot_or_none-some : (s t : ℕ) → slot_or_none s ≡ some t → (s ≡ t) × (s ≢ empty)
unfolding slot_or_none
slot_or_none-some s t h = ground arith

module _ {F : Type 0} ⦃fl : Float F⦄ where
  abbrev levelled : Manager F → ℕ → Shared → Manager F
  levelled m slot g = record m {
    hnsw_level_block = update_map m.hnsw_level_block slot (min (g.levels g.drawn) max_level);
  }

  -- Insertion of a slot in use keeps the edges and the entry point among the slots in use.
  pub hnsw_insert-IsLinked :
      (slot : ℕ) (vec : List F) (m : Manager F) (dim : ℕ) (use_avx2 : Bool) (flags : List Bool)
      (g : Shared)
      → slot < m.vector_count
      → IsLinked m
      → IsLinked (hnsw_insert slot vec m dim use_avx2 flags g).0
  unfolding hnsw_insert later_insert first_insert
  hnsw_insert-IsLinked slot vec m dim use_avx2 flags g lt h =
      let m' = levelled m slot g in
      let level = min (g.levels g.drawn) max_level in
      let begin : Wiring = record {
        block = m.hnsw_edge_block;
        curr = descend vec m.hnsw_entry_point level m' dim use_avx2 flags;
        visits = g.visits;
      } in
      let start : m.is_initialized ≡ true → IsWired m' dim use_avx2 flags begin = λ on. record {
        linked = h.edges;
        from = descend-lt m' dim use_avx2 flags vec m.hnsw_entry_point level h.edges (h.entry on);
      } in
      let wired = λ (on : m.is_initialized ≡ true).
        wire-IsWired m' dim use_avx2 flags vec slot (min level m.hnsw_max_level) begin lt
          (start on) in
      if_elim (λ r. IsLinked r.0) m.is_initialized (later_insert slot vec m dim use_avx2 flags g)
        (first_insert slot m, g)
        (λ on.
          raise_entry-IsLinked
            (record m' {
              hnsw_edge_block =
                  (wire m' vec dim use_avx2 flags slot (min level m.hnsw_max_level) begin).block;
            })
            dim use_avx2 flags slot level lt (h.entry on) (wired on).linked)
        (λ off. record { edges = h.edges; entry = λ _. lt })

  -- Insertion changes neither the rows and ids of the file nor its counts.
  pub hnsw_insert-SameRows :
      (slot : ℕ) (vec : List F) (m : Manager F) (dim : ℕ) (use_avx2 : Bool) (flags : List Bool)
      (g : Shared)
      → SameRows m (hnsw_insert slot vec m dim use_avx2 flags g).0
  unfolding hnsw_insert later_insert first_insert
  hnsw_insert-SameRows slot vec m dim use_avx2 flags g =
      let same =
        raise_entry-SameRows _ dim use_avx2 flags slot (min (g.levels g.drawn) max_level) in
      if_elim (λ r. SameRows m r.0) m.is_initialized (later_insert slot vec m dim use_avx2 flags g)
        (first_insert slot m, g)
        (λ on. record {
          count = same.count;
          capacity = same.capacity;
          dims = same.dims;
          ids = same.ids;
          floats = same.floats;
          kind = same.kind;
          auto = same.auto;
        })
        (λ off. record {
          count = refl;
          capacity = refl;
          dims = refl;
          ids = refl;
          floats = refl;
          kind = refl;
          auto = refl;
        })

  raise_entry-is_initialized :
      (m : Manager F) (slot level : ℕ)
      → (raise_entry m slot level).is_initialized ≡ m.is_initialized
  unfolding raise_entry
  raise_entry-is_initialized m slot level = ground arith

  hnsw_insert_initializes :
      (slot : ℕ) (vec : List F) (m : Manager F) (dim : ℕ) (use_avx2 : Bool) (flags : List Bool)
      (g : Shared)
      → (hnsw_insert slot vec m dim use_avx2 flags g).0.is_initialized ≡ true
  unfolding hnsw_insert later_insert first_insert
  hnsw_insert_initializes slot vec m dim use_avx2 flags g =
      if_elim (λ r. r.0.is_initialized ≡ true) m.is_initialized
        (later_insert slot vec m dim use_avx2 flags g) (first_insert slot m, g)
        (λ on. raise_entry-is_initialized _ slot (min (g.levels g.drawn) max_level) ∙ on)
        (λ off. refl)

  unfoldable pub engine_search_1 : List F → Manager F → ℕ → Bool → List Bool → ℕ → Option ℕ
  unfolding hnsw_search_1 slot_or_none
  engine_search_1 query m dim use_avx2 flags ef =
      slot_or_none (hnsw_search_1 query m dim use_avx2 flags unvisited ef)

  engine_search_1-IsLive :
      (query : List F) (m : Manager F) (dim : ℕ) (use_avx2 : Bool) (flags : List Bool) (ef slot : ℕ)
      → IsLinked m
      → m.is_initialized ≡ true
      → engine_search_1 query m dim use_avx2 flags ef ≡ some slot
      → IsLive m flags slot
  unfolding engine_search_1
  engine_search_1-IsLive query m dim use_avx2 flags ef slot h on e =
      let live = hnsw_search_1-Live m dim use_avx2 flags query unvisited ef h.edges (h.entry on) in
      let same = slot_or_none-some (hnsw_search_1 query m dim use_avx2 flags unvisited ef) slot e in
      ground (arith, live, same)

  -- The HNSW operations meet what the engine asks of its graph: an insertion changes the graph
  -- alone, keeps edges and entry point among the slots in use and initialises the graph, and a
  -- search for one neighbour finds only live slots.
  instance pub hnsw_index : GraphIndex F Shared
  unfolding hnsw_search
  hnsw_index = record {
    insert = hnsw_insert;
    search_1 = engine_search_1;
    search = λ query n m dim use_avx2 flags. (hnsw_search query n m dim use_avx2 flags unvisited).0;
    insert-SameRows = hnsw_insert-SameRows;
    insert-IsLinked = hnsw_insert-IsLinked;
    insert_initializes = hnsw_insert_initializes;
    search_1-IsLive = engine_search_1-IsLive;
  }
