-- ===== src/Tests.antt =====
-- Concrete numbers in place of floats, a concrete graph, and small databases: the theorems at inputs
-- that meet their hypotheses, and runs of the definitions.
pub mod Distance
pub mod Storage
pub mod Cluster
pub mod Engine
pub mod Hnsw
pub mod Server
pub mod Tables
pub mod MetadataStore
pub mod Startup
pub mod Meta
pub mod Restart
use red_box_db.Base.{
  Bool, List, [], arith, false, leb, ltb, none, not, refl, some, true, ℕ, ◌*◌, ◌+◌, ◌-◌, ◌/◌, ◌<◌,
  ◌∷◌, ◌≡◌, ◌⊎◌,
}
use red_box_db.Floats.{Double, Float}
use red_box_db.Metadata.{ivf}
use red_box_db.Storage.{Manager}
use red_box_db.Storage.Open.{Request, fresh_manager}
use red_box_db.Cluster.{Draws}
use red_box_db.Graph.{GraphIndex, IsLinked, IsLive, SameRows}

pub nat_lt_irrefl : (a : ℕ) → ltb a a ≡ false
nat_lt_irrefl a = ground arith

pub nat_lt_trans : (a b c : ℕ) → ltb a b ≡ true → ltb b c ≡ true → ltb a c ≡ true
nat_lt_trans a b c h k = ground arith

pub nat_le-lt : (a b : ℕ) → leb a b ≡ not (ltb b a)
nat_le-lt a b = ground arith

pub nat_lt_cotrans : (a b c : ℕ) → ltb a c ≡ true → (ltb a b ≡ true) ⊎ (ltb b c ≡ true)
nat_lt_cotrans a b c h = ground arith

-- Whole numbers; a difference is taken without its sign, since only its square is used.
instance abbrev pub nat_float : Float ℕ
nat_float = record {
  nought = 0;
  add = λ a b. a + b;
  sub = λ a b. (a - b) + (b - a);
  mul = λ a b. a * b;
  div = λ a b. a / b;
  fma = λ a b c. a * b + c;
  of_nat = λ n. n;
  max_value = 1000000;
  is_nan = λ _. false;
  lt = ltb;
  le = leb;
  lt_irrefl = nat_lt_irrefl;
  lt_trans = nat_lt_trans;
  le-lt = λ a b _ _. nat_le-lt a b;
  lt_cotrans = λ a b c _. nat_lt_cotrans a b c;
}

instance abbrev pub nat_double : Double ℕ
nat_double = record {
  D = ℕ;
  nought = 0;
  add = λ a b. a + b;
  mul = λ a b. a / b;
  recip = λ n. n;
  widen = λ a. a;
  narrow = λ a. a;
}

instance abbrev pub first_draws : Draws ℕ
first_draws = record {
  uniform = λ n. 0;
  uniform-lt = λ n h. h;
  sample = λ n chosen total. total / 2;
}

-- A graph with an entry point and no edges.
unfoldable pub lone_insert :
    {G : Type 0} → ℕ → List ℕ → Manager ℕ → ℕ → Bool → List Bool → G → Manager ℕ × G
lone_insert slot vec m dim use_avx2 flags g =
    (record m { header = record m.header { is_initialized = true; hnsw_entry_point = slot } }, g)

pub lone_insert-SameRows :
    (slot : ℕ) (vec : List ℕ) (m : Manager ℕ) (dim : ℕ) (use_avx2 : Bool) (flags : List Bool)
    (g : Unit {0})
    → SameRows m (lone_insert slot vec m dim use_avx2 flags g).0
unfolding lone_insert
lone_insert-SameRows slot vec m dim use_avx2 flags g = ground arith

pub lone_insert-IsLinked :
    (slot : ℕ) (vec : List ℕ) (m : Manager ℕ) (dim : ℕ) (use_avx2 : Bool) (flags : List Bool)
    (g : Unit {0})
    → slot < m.vector_count
    → IsLinked m
    → IsLinked (lone_insert slot vec m dim use_avx2 flags g).0
unfolding lone_insert
lone_insert-IsLinked slot vec m dim use_avx2 flags g lt h = record {
  edges = h.edges;
  entry = λ _. lt;
}

pub lone_insert_initializes :
    (slot : ℕ) (vec : List ℕ) (m : Manager ℕ) (dim : ℕ) (use_avx2 : Bool) (flags : List Bool)
    (g : Unit {0})
    → (lone_insert slot vec m dim use_avx2 flags g).0.is_initialized ≡ true
unfolding lone_insert
lone_insert_initializes slot vec m dim use_avx2 flags g = refl

pub lone_search_1-IsLive :
    (m : Manager ℕ) (flags : List Bool) (slot : ℕ) → none ≡ some slot → IsLive m flags slot
lone_search_1-IsLive m flags slot e = cc

instance abbrev pub lone_graph : GraphIndex ℕ (Unit {0})
unfolding lone_insert
lone_graph = record {
  insert = lone_insert;
  search_1 = λ query m dim use_avx2 flags ef. none;
  search = λ query n m dim use_avx2 flags. [];
  insert-SameRows = lone_insert-SameRows;
  insert-IsLinked = lone_insert-IsLinked;
  insert_initializes = lone_insert_initializes;
  search_1-IsLive = λ query m dim use_avx2 flags ef slot h i e. lone_search_1-IsLive m flags slot e;
}

-- An IVF file of dimension 2 with room for `capacity` vectors and two clusters.
abbrev pub small_request : ℕ → Request
small_request capacity = record {
  dimensions = 2;
  initial_capacity = capacity;
  num_clusters = 2;
  num_probes = 1;
  index_type = ivf;
  hnsw_m = 16;
  hnsw_ef_construction = 200;
}

unfoldable pub small_file : ℕ → Manager ℕ
unfolding fresh_manager
small_file capacity = fresh_manager (0 ∷ 0 ∷ []) (small_request capacity)
