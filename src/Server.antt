-- ===== src/Server.antt =====
-- src/server.cpp: the protocol, the catalog of databases and the connections. Serve is about a server
-- that runs without a metadata store, Meta about one that has it.
pub mod Wire
pub mod Receive
pub mod Serve
pub mod Session
pub mod Client
pub mod Framing
pub mod Handshake
pub mod Received
pub mod Catalog
pub mod Engines
pub mod Keeps
pub mod Outcomes
pub mod Commands
pub mod Ages
pub mod Steps
pub mod Tenants
pub mod Dropped
pub mod Served
pub mod Meta
pub mod Startup
pub mod Opened
pub mod Runs
pub mod Restart
pub mod Restored
use red_box_db.Base.Names.{same_name}
use red_box_db.Base.{
  Bool, List, Option, [], false, if◌then◌else◌, leb, length, ltb, none, some, true, ℕ, ◌&&◌, ◌==◌,
  ◌||◌, ◌∷◌,
}
use red_box_db.Storage.Open.{Calls, Stored}
use red_box_db.Engine.{Engine}
use red_box_db.Engine.Tombstones.{DiskCalls}

-- A database name, by its bytes.
abbrev pub Name : Type 0
Name = List ℕ

abbrev pub max_db_name_len : ℕ
max_db_name_len = 64

-- `std::isalnum(c) || c == '_' || c == '-'`, in the C locale.
unfoldable pub is_name_char : ℕ → Bool
is_name_char c =
    leb b'0' c && leb c b'9'
    || leb b'A' c && leb c b'Z'
    || leb b'a' c && leb c b'z'
    || c == b'_'
    || c == b'-'

unfoldable pub all_name_chars : Name → Bool
unfolding is_name_char
all_name_chars [] = true
all_name_chars (c ∷ cs) = is_name_char c && all_name_chars cs

unfoldable pub is_valid_db_name : Name → Bool
unfolding all_name_chars
is_valid_db_name [] = false
is_valid_db_name (c ∷ cs) =
    if ltb max_db_name_len (length (c ∷ cs)) then false else all_name_chars (c ∷ cs)

-- A `float` from its bits, as `recv_all` into a vector of floats leaves them.
pub record Bits (F : Type 0) : Type 0 where
  pub of_bits : ℕ → F

-- `heap` has the databases by their addresses, and `next` is the next address that `make_unique`
-- gives. An entry of the catalog stands for those of `catalog` and of `db_mutexes`, which change
-- together. `files` and `tombstones` are on disk, for the names that the catalog does not have.
pub record SharedState (F G : Type 0) : Type 0 where
  pub heap : ℕ → Option (Engine F G)
  pub next : ℕ
  pub catalog : List (Name × ℕ)
  pub files : Name → Option (Stored F)
  pub tombstones : Name → Option (List ℕ)

-- `active_db`, `active_mtx` and `active_db_name` of a connection.
abbrev pub Connection : Type 0
Connection = Option ℕ

-- What the operating system and the processor give a request: the calls that open a file, those on
-- the tombstone file, whether the file and the tombstone file of a database can be removed, and what
-- a new engine has of random numbers.
pub record Env (G : Type 0) : Type 0 where
  pub calls : Calls
  pub disk : DiskCalls
  pub db_removes : Bool
  pub del_removes : Bool
  pub use_avx2 : Bool
  pub graph : G

unfoldable pub find_name : Name → List (Name × ℕ) → Option ℕ
unfolding same_name
find_name name [] = none
find_name name ((n, p) ∷ catalog) = if same_name n name then some p else find_name name catalog

-- The loop of `DROP_DB` over the catalog.
unfoldable pub find_pointer : ℕ → List (Name × ℕ) → Option Name
find_pointer p [] = none
find_pointer p ((n, q) ∷ catalog) = if q == p then some n else find_pointer p catalog

unfoldable pub erase_name : Name → List (Name × ℕ) → List (Name × ℕ)
unfolding same_name
erase_name name [] = []
erase_name name ((n, p) ∷ catalog) =
    if same_name n name then erase_name name catalog else (n, p) ∷ erase_name name catalog
