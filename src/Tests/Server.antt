-- ===== src/Tests/Server.antt =====
-- A database "ab" of dimension 2 behind a few connections.
use red_box_db.Base.{
  All, List, [], arith, false, none, refl, some, subst, true, ℕ, ◌++◌, ◌∷◌, ◌≡◌, ◌≢◌,
}
use red_box_db.Tests.{first_draws, lone_graph, nat_double, nat_float}
use red_box_db.Engine.{Engine, contents}
use red_box_db.Storage.Open.{Calls, Request, fresh_manager, open_manager}
use red_box_db.Server.{Bits, Env, Name, SharedState, erase_name, find_name, is_valid_db_name}
use red_box_db.Server.Wire.{Sent, Socket, bytes, interrupted, le, send_all, sent}
use red_box_db.Server.Wire.Chunks.{read_bytes}
use red_box_db.Server.Receive.{
  absent, create_hnsw_db, read_request, reject_name, select_db, use_freed,
}
use red_box_db.Server.Serve.{
  active_of, add_database, choose, closed, drop_database, forget, forgotten, ivf_request,
  left_files, left_tombstones, new_engine, one, perform, replied, serve, undefined,
}
use red_box_db.Server.Keeps.{Ensures, IsShared, without}
use red_box_db.Server.Commands.{serve-IsShared}
use red_box_db.Server.Received.{IsByte, IsCommand, read_request-IsCommand}
use red_box_db.Server.Client
use red_box_db.Server.Client.{
  ClientCall, handshake, handshake_hnsw, insert, packet, packet_header, sdk_handshake, search,
}
use red_box_db.Server.Handshake.{read_request-handshake, reject_desyncs, sdk_handshake_starves}
use red_box_db.Server.Served.{IsRequest, play, session-play, stream, with_engine}
use red_box_db.Server.Tenants.{Leaves, serve-Leaves}
use red_box_db.Server.Steps.{
  IsSystem, Reach, Reach-IsSystem, Step, System, after, answer, connect, holding, read, reading,
  set_thread, start,
}
use red_box_db.Server.Session.{
  disconnected, out_of_fuel, session, session-session_bytes, session_bytes, session_ends,
}
use red_box_db.Server.Dropped.{
  IsDropped, drop_database-IsDropped, dropped_dangles, dropped_is_blank,
}

instance abbrev pub nat_bits : Bits ℕ
nat_bits = record { of_bits = λ n. n }

abbrev pub ab : Name
ab = b'a' ∷ b'b' ∷ []

abbrev all_calls_work : Calls
all_calls_work = record {
  open_works = true;
  fstat_works = true;
  ftruncate_works = true;
  mmap_works = true;
}

abbrev pub env : Env (Unit {0})
env = record {
  calls = all_calls_work;
  disk = record { append_opens = true; tmp_opens = true; old_removes = true; rename_works = true };
  db_removes = true;
  del_removes = true;
  use_avx2 = false;
  graph = tt;
}

abbrev pub no_dbs : SharedState ℕ (Unit {0})
no_dbs = record {
  heap = λ p. none;
  next = 0;
  catalog = [];
  files = λ n. none;
  tombstones = λ n. none;
}

pub no_dbs-IsShared : IsShared no_dbs
unfolding find_name
no_dbs-IsShared = record {
  distinct = tt;
  linked = λ n p e. cc;
  unique = λ m n p a b. cc;
  owner = λ p alive. cc;
  fresh = λ p le. refl;
  opened = λ p e eq. cc;
  disk = λ n st eq. cc;
}

abbrev ab_request : Request
ab_request = ivf_request 2 3

abbrev pub ab_engine : Engine ℕ (Unit {0})
ab_engine = new_engine env none ab_request (fresh_manager (0 ∷ 0 ∷ []) ab_request)

-- With the database at the address 0.
abbrev pub one_db : SharedState ℕ (Unit {0})
one_db = add_database no_dbs ab ab_engine

abbrev ab_bytes : List ℕ
ab_bytes = 4 ∷ 2 ∷ 0 ∷ 0 ∷ 0 ∷ b'a' ∷ b'b' ∷ 2 ∷ 0 ∷ 0 ∷ 0 ∷ 3 ∷ 0 ∷ 0 ∷ 0 ∷ []

ab_selected : choose env 0 no_dbs ab ab_request ≡ replied one_db (some 0) one
unfolding choose open_manager
ab_selected = refl

ab_read : read_bytes (read_request {F = ℕ} absent) ab_bytes ≡ some (select_db ab 2 3, [])
unfolding read_bytes read_request
ab_read = refl

pub ab-IsValid : is_valid_db_name ab ≡ true
unfolding is_valid_db_name
ab-IsValid = refl

pub one_db-IsShared : IsShared one_db
unfolding serve
one_db-IsShared =
    subst (Ensures IsShared) ab_selected (
      serve-IsShared env 0 no_dbs none (select_db ab 2 3) no_dbs-IsShared (ab-IsValid, omega arith))

-- A client comes and selects the database.
abbrev start_system : System ℕ (Unit {0})
start_system = record { state = no_dbs; threads = λ i. none }

abbrev one_client : System ℕ (Unit {0})
one_client = set_thread start_system no_dbs 5 (some (reading none))

abbrev one_request : System ℕ (Unit {0})
one_request = set_thread one_client no_dbs 5 (some (holding none (select_db ab 2 3)))

abbrev one_user : System ℕ (Unit {0})
one_user = set_thread one_request one_db 5 (some (reading (some 0)))

ab_bytes-IsByte : All IsByte ab_bytes
ab_bytes-IsByte = ground arith

one_user_served : serve env 0 no_dbs none (select_db ab 2 3) ≡ replied one_db (some 0) one
unfolding serve
one_user_served = ab_selected

one_client_reads : Step one_client one_request
unfolding active_of
one_client_reads = read 5 none ab_bytes [] (select_db ab 2 3) refl ab_bytes-IsByte ab_read refl

one_user_reached : Reach start_system one_user
one_user_reached =
    after one_request one_user
      (after one_client one_request (after start_system one_client start (connect 5 refl refl))
        one_client_reads)
      (answer env 5 none (some 0) (select_db ab 2 3) one_db one refl one_user_served refl)

start_system-IsSystem : IsSystem start_system
start_system-IsSystem = record { shared = no_dbs-IsShared; ready = λ i t e. cc }

Reach-IsSystem_example : IsSystem one_user
Reach-IsSystem_example = Reach-IsSystem start_system one_user start_system-IsSystem one_user_reached

-- A second database beside it, and the first as it was.
abbrev cd : Name
cd = b'c' ∷ b'd' ∷ []

serve-Leaves_example : Leaves one_db 0 (serve env 0 one_db none (select_db cd 2 3))
unfolding add_database
serve-Leaves_example =
    serve-Leaves env 0 one_db none (select_db cd 2 3) 0 one_db-IsShared refl λ e. cc

-- Two calls, in chunks that cut them anywhere.
abbrev two_calls : List Client.ClientCall
two_calls = Client.insert 7 (1 ∷ 2 ∷ []) ∷ Client.search (1 ∷ 2 ∷ []) ∷ []

abbrev two_calls_socket : Socket
two_calls_socket =
    (1 ∷ 7 ∷ 0 ∷ [])
    ∷ (0 ∷ 0 ∷ 1 ∷ 0 ∷ 0 ∷ 0 ∷ 2 ∷ [])
    ∷ (0 ∷ 0 ∷ 0 ∷ 2 ∷ 0 ∷ 0 ∷ 0 ∷ 0 ∷ 1 ∷ 0 ∷ 0 ∷ [])
    ∷ (0 ∷ 2 ∷ 0 ∷ 0 ∷ 0 ∷ [])
    ∷ []

two_calls_arrive : bytes two_calls_socket ≡ stream two_calls
unfolding bytes packet
two_calls_arrive = refl

ab_engine-dimension : ab_engine.dimension ≡ 2
unfolding new_engine
ab_engine-dimension = refl

two_calls-IsRequest : All (IsRequest ab_engine.dimension) two_calls
two_calls-IsRequest = rw ab_engine-dimension (ground arith)

session-play_example :
    session 3 (λ i. env) one_db (some 0) two_calls_socket
    ≡ disconnected
        (with_engine one_db 0 (play (λ i. env) ab_engine two_calls).0)
        (play (λ i. env) ab_engine two_calls).1
unfolding add_database
session-play_example =
    session-play two_calls two_calls_socket 3 (λ i. env) one_db 0 ab_engine refl
      (omega (arith, ab_engine-dimension)) two_calls-IsRequest two_calls_arrive (omega arith)

two_calls_answered : (play (λ i. env) ab_engine two_calls).1 ≡ b'1' ∷ 7 ∷ 0 ∷ 0 ∷ 0 ∷ []
unfolding play new_engine perform fresh_manager lone_graph
two_calls_answered = refl

session-session_bytes_example :
    session 3 (λ i. env) one_db (some 0) two_calls_socket
    ≡ session_bytes 3 (λ i. env) one_db (some 0) (bytes two_calls_socket)
session-session_bytes_example = session-session_bytes 3 (λ i. env) one_db (some 0) two_calls_socket

session_ends_example : session 100 (λ i. env) one_db (some 0) two_calls_socket ≢ out_of_fuel
session_ends_example =
    session_ends 100 (λ i. env) one_db (some 0) two_calls_socket
      (rw two_calls_arrive (unfold packet in omega arith))

read_request-handshake_example :
    (read_bytes (read_request {F = ℕ} absent) (handshake ab 2 3 ++ 9 ∷ [])
      ≡ some (select_db ab 2 3, 9 ∷ []))
    × (read_bytes (read_request {F = ℕ} absent) (handshake_hnsw ab 2 3 16 200 ++ 9 ∷ [])
        ≡ some (create_hnsw_db ab 2 3 16 200, 9 ∷ []))
read_request-handshake_example =
    read_request-handshake absent ab 2 3 16 200 (9 ∷ []) ab-IsValid (omega arith) (omega arith)
      (omega arith) (omega arith)

-- A name with a space.
abbrev spaced : Name
spaced = b'a' ∷ 32 ∷ []

spaced_refused : is_valid_db_name spaced ≡ false
unfolding is_valid_db_name
spaced_refused = refl

reject_desyncs_example :
    read_bytes (read_request {F = ℕ} absent) (handshake spaced 2 3 ++ 9 ∷ [])
    ≡ some (reject_name, le 4 2 ++ (le 4 3 ++ 9 ∷ []))
reject_desyncs_example = reject_desyncs absent spaced 2 3 (9 ∷ []) (omega arith) spaced_refused

sdk_handshake_starves_example : read_bytes (read_request {F = ℕ} absent) (sdk_handshake ab 2) ≡ none
sdk_handshake_starves_example = sdk_handshake_starves absent ab 2 ab-IsValid (omega arith)

read_request-IsCommand_example : IsCommand {F = ℕ} absent (select_db ab 2 3)
read_request-IsCommand_example =
    read_request-IsCommand ℕ absent ab_bytes [] (select_db ab 2 3) ab_bytes-IsByte ab_read

ab_listed : find_name ab one_db.catalog ≡ some 0
unfolding add_database find_name
ab_listed = refl

drop_database-IsDropped_example : IsDropped env one_db 0 ab (drop_database env one_db 0)
drop_database-IsDropped_example = drop_database-IsDropped env one_db ab 0 one_db-IsShared ab_listed

ab_dropped : drop_database env one_db 0 ≡ replied (without one_db 0 ab) none one
unfolding drop_database add_database
ab_dropped = refl

-- The file cannot be removed, and the connection ends.
abbrev stuck_env : Env (Unit {0})
stuck_env = record env { db_removes = false }

ab_left :
    drop_database stuck_env one_db 0
    ≡ closed (forgotten one_db 0 ab (left_files one_db 0 ab) (left_tombstones one_db 0 ab))
unfolding drop_database forget add_database
ab_left = refl

abbrev dropped_db : SharedState ℕ (Unit {0})
dropped_db = without one_db 0 ab

abbrev again_db : SharedState ℕ (Unit {0})
again_db = add_database dropped_db ab ab_engine

ab_again : choose env 0 dropped_db ab ab_request ≡ replied again_db (some 1) one
unfolding choose open_manager add_database erase_name
ab_again = refl

dropped_is_blank_example :
    (e : Engine ℕ (Unit {0})) × (again_db.heap 1 ≡ some e) × ((id : ℕ) → contents e id ≡ none)
dropped_is_blank_example =
    dropped_is_blank env 0 one_db dropped_db again_db ab 0 1 ab_request none one one one_db-IsShared
      ab_listed ab_dropped ab_again

dropped_dangles_example :
    (read_bytes (read_request {F = ℕ} (active_of dropped_db (some 0))) (packet_header 3 7 ++ 9 ∷ [])
      ≡ some (use_freed, 9 ∷ []))
    × (serve env 0 dropped_db (some 0) use_freed ≡ undefined)
dropped_dangles_example =
    dropped_dangles env 0 one_db dropped_db ab 0 3 7 (9 ∷ []) one one_db-IsShared ab_listed
      ab_dropped (omega arith) (λ e. cc) (λ e. cc)

-- An interruption, one byte, and then the rest.
abbrev slow_reports : List Sent
slow_reports = interrupted ∷ sent 1 ∷ sent 2 ∷ []

slow_sends : send_all (5 ∷ 6 ∷ 7 ∷ []) slow_reports ≡ (5 ∷ 6 ∷ 7 ∷ [], true)
unfolding send_all
slow_sends = refl
