-- ===== src/Server/Steps.antt =====
-- The server of src/server.cpp with all its connections. A connection reads a command in one step and
-- serves it in a later one, so that others are served in between; what is done with it is done
-- under the mutex of the catalog, or of the database, and is one step.
use red_box_db.Base.{
  All, Bool-cases, List, Option, arith, inl, inr, none, some, subst, update_map, ℕ, ◌==◌, ◌≡◌,
}
use red_box_db.Floats.{Double, Float}
use red_box_db.Cluster.{Draws}
use red_box_db.Graph.{GraphIndex}
use red_box_db.Server.{Bits, Connection, Env, SharedState}
use red_box_db.Server.Wire.Chunks.{read_bytes}
use red_box_db.Server.Receive.{Command, read_request}
use red_box_db.Server.Received.{IsByte, read_request-IsCommand}
use red_box_db.Server.Serve.{active_of, closed, replied, serve}
use red_box_db.Server.Keeps.{Ensures, IsShared}
use red_box_db.Server.Commands.{IsCommand-IsFit, IsFit, serve-IsShared}
use red_box_db.Server.Ages.{
  Ages, IsGiven, IsLater, later-IsFit, later-IsGiven, same-IsLater, serve-Ages,
}

-- A thread of `handle_client`: it reads, or has read a command.
pub data Thread (F : Type 0) : Type 0 where
  reading : Connection → Thread F
  holding : Connection → Command F → Thread F

-- `threads` has them by their sockets.
pub record System (F G : Type 0) : Type 0 where
  pub state : SharedState F G
  pub threads : ℕ → Option (Thread F)

module _ {F G : Type 0} where
  abbrev pub set_thread : System F G → SharedState F G → ℕ → Option (Thread F) → System F G
  set_thread y s i t = record { state = s; threads = update_map y.threads i t }

  -- The invariant is kept, and what the threads hold fits the state.
  abbrev pub IsReady : SharedState F G → Thread F → Type 0
  IsReady s (reading c) = IsGiven s c
  IsReady s (holding c command) = IsGiven s c × IsFit s c command

  pub record IsSystem (y : System F G) : Type 0 where
    pub shared : IsShared y.state
    pub ready : (i : ℕ) (t : Thread F) → y.threads i ≡ some t → IsReady y.state t

  later-IsReady :
      (s s' : SharedState F G) (t : Thread F) → IsLater s s' → IsReady s t → IsReady s' t
  later-IsReady s s' (reading c) l g = later-IsGiven s s' c l g
  later-IsReady s s' (holding c command) l (g, k) =
      (later-IsGiven s s' c l g, later-IsFit s s' c command l g k)

  set_thread-IsSystem :
      (y : System F G) (s : SharedState F G) (i : ℕ) (t : Thread F)
      → IsSystem y
      → IsShared s
      → IsLater y.state s
      → IsReady s t
      → IsSystem (set_thread y s i (some t))
  set_thread-IsSystem y s i t h shared l k = record {
    shared = shared;
    ready = λ j u eq. elim (Bool-cases (i == j)) [
      | inl this ↦ subst (IsReady s) (ground arith) k
      | inr other ↦ later-IsReady y.state s u l (h.ready j u (ground arith))
    ];
  }

  end_thread-IsSystem :
      (y : System F G) (s : SharedState F G) (i : ℕ)
      → IsSystem y
      → IsShared s
      → IsLater y.state s
      → IsSystem (set_thread y s i none)
  end_thread-IsSystem y s i h shared l = record {
    shared = shared;
    ready = λ j u eq. later-IsReady y.state s u l (h.ready j u (ground arith));
  }

module _ {F G : Type 0} ⦃fl : Float F⦄ ⦃db : Double F⦄ ⦃draws : Draws F⦄ ⦃graph : GraphIndex F G⦄
    ⦃bits : Bits F⦄ where
  -- `accept` starts a thread without an active database. A command that was read is answered, or
  -- ends the connection; a connection also ends when its client goes away or cannot be answered.
  -- Where a command is left undefined there is no step.
  pub data Step (y : System F G) (u : System F G) : Type 0 where
    connect :
        (i : ℕ) → y.threads i ≡ none → u ≡ set_thread y y.state i (some (reading none)) → Step y u
    read :
        (i : ℕ) (c : Connection) (bs rest : List ℕ) (command : Command F)
        → y.threads i ≡ some (reading c)
        → All IsByte bs
        → read_bytes (read_request (active_of y.state c)) bs ≡ some (command, rest)
        → u ≡ set_thread y y.state i (some (holding c command))
        → Step y u
    answer :
        (env : Env G) (i : ℕ) (c c' : Connection) (command : Command F) (s : SharedState F G)
        (out : List ℕ)
        → y.threads i ≡ some (holding c command)
        → serve env (bits.of_bits 0) y.state c command ≡ replied s c' out
        → u ≡ set_thread y s i (some (reading c'))
        → Step y u
    close :
        (env : Env G) (i : ℕ) (c : Connection) (command : Command F) (s : SharedState F G)
        → y.threads i ≡ some (holding c command)
        → serve env (bits.of_bits 0) y.state c command ≡ closed s
        → u ≡ set_thread y s i none
        → Step y u
    leave :
        (i : ℕ) (c : Connection)
        → y.threads i ≡ some (reading c)
        → u ≡ set_thread y y.state i none
        → Step y u

  pub data Reach (y : System F G) : System F G → Type 0 where
    start : Reach y y
    after : (u v : System F G) → Reach y u → Step u v → Reach y v

  Step-IsSystem : (y u : System F G) → IsSystem y → Step y u → IsSystem u
  Step-IsSystem y u h (connect i new e) =
      rw e (set_thread-IsSystem y y.state i (reading none) h h.shared (same-IsLater y.state) tt)
  Step-IsSystem y u h (read i c bs rest command at b r e) =
      let k = read_request-IsCommand F (active_of y.state c) bs rest command b r in
      rw e (
        set_thread-IsSystem y y.state i (holding c command) h h.shared (same-IsLater y.state)
          (h.ready i (reading c) at, IsCommand-IsFit y.state c command h.shared k))
  Step-IsSystem y u h (answer env i c c' command s out at e e') =
      let (g, k) = h.ready i (holding c command) at in
      let z = bits.of_bits 0 in
      let shared : IsShared s =
        subst (Ensures IsShared) e (serve-IsShared env z y.state c command h.shared k) in
      let (l, g') : IsLater y.state s × IsGiven s c' =
        subst (Ages y.state) e (serve-Ages env z y.state c command h.shared g) in
      rw e' (set_thread-IsSystem y s i (reading c') h shared l g')
  Step-IsSystem y u h (close env i c command s at e e') =
      let (g, k) = h.ready i (holding c command) at in
      let z = bits.of_bits 0 in
      let shared : IsShared s =
        subst (Ensures IsShared) e (serve-IsShared env z y.state c command h.shared k) in
      let l : IsLater y.state s =
        subst (Ages y.state) e (serve-Ages env z y.state c command h.shared g) in
      rw e' (end_thread-IsSystem y s i h shared l)
  Step-IsSystem y u h (leave i c at e) =
      rw e (end_thread-IsSystem y y.state i h h.shared (same-IsLater y.state))

  -- From a system that meets the invariant, however many connections there are, whatever bytes
  -- arrive for them, and in whatever order they read commands and serve them, the shared state
  -- keeps its invariant, and a command that waits to be served fits the state: its name is valid,
  -- and its vectors have the dimension of its database as long as that is open.
  pub Reach-IsSystem : (y u : System F G) → IsSystem y → Reach y u → IsSystem u
  Reach-IsSystem y u h start = h
  Reach-IsSystem y u h (after v w r s) = Step-IsSystem v w (Reach-IsSystem y v h r) s
