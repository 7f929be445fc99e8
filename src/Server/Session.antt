-- ===== src/Server/Session.antt =====
-- The loop of `handle_client` (src/server.cpp), for a client that no other one disturbs and whose
-- answers can all be sent.
use red_box_db.Base.{
  List, Option, [], ap, arith, fun_ext, length, none, refl, some, suc, zero, ℕ, ◌++◌, ◌+◌, ◌<◌, ◌≡◌,
  ◌≢◌, ◌≤◌,
}
use red_box_db.Floats.{Double, Float}
use red_box_db.Cluster.{Draws}
use red_box_db.Graph.{GraphIndex}
use red_box_db.Server.{Bits, Connection, Env, SharedState}
use red_box_db.Server.Wire.{Socket, bytes, read_socket}
use red_box_db.Server.Wire.Chunks.{Agrees, read_bytes, read_bytes-lt, read_socket-Agrees}
use red_box_db.Server.Receive.{Active, Command, read_request}
use red_box_db.Server.Serve.{Outcome, active_of, closed, replied, serve, undefined}

-- How a session ends, with all that was sent; `out_of_fuel` is no end of the program's.
pub data Ending (F G : Type 0) : Type 0 where
  disconnected : SharedState F G → List ℕ → Ending F G
  stuck : Ending F G
  out_of_fuel : Ending F G

-- A command takes five bytes at least.
request-shrinks :
    {F : Type 0} ⦃bits : Bits F⦄ (active : Active) (bs rest : List ℕ) (command : Command F)
    → read_bytes (read_request active) bs ≡ some (command, rest)
    → length rest + 5 ≤ length bs
unfolding read_request
request-shrinks active bs rest command = read_bytes-lt 5 _ bs rest command

module _ {F G : Type 0} where
  abbrev pub after_answer : List ℕ → Ending F G → Ending F G
  after_answer answer (disconnected s out) = disconnected s (answer ++ out)
  after_answer answer stuck = stuck
  after_answer answer out_of_fuel = out_of_fuel

  -- The next round, or the end.
  abbrev pub go_on : Outcome F G → (SharedState F G → Connection → Ending F G) → Ending F G
  go_on undefined next = stuck
  go_on (closed s) next = disconnected s []
  go_on (replied s c answer) next = after_answer answer (next s c)

module _ {F G : Type 0} ⦃fl : Float F⦄ ⦃db : Double F⦄ ⦃draws : Draws F⦄ ⦃graph : GraphIndex F G⦄
    ⦃bits : Bits F⦄ where
  -- `while (true)`, on fuel. Each command takes five bytes at least, so one round more than there
  -- are bytes is enough.
  unfoldable pub session : ℕ → (ℕ → Env G) → SharedState F G → Connection → Socket → Ending F G
  unfolding read_socket read_request serve active_of
  session zero envs s c socket = out_of_fuel
  session (suc fuel) envs s c socket =
      elim (read_socket (read_request {F = F} (active_of s c)) socket) [
        | none ↦ disconnected s []
        | some (command, socket') ↦
            go_on (serve (envs 0) (bits.of_bits 0) s c command)
              (λ s' c'. session fuel (λ i. envs (suc i)) s' c' socket')
      ]

  -- The same over the bytes that arrive.
  unfoldable pub session_bytes :
      ℕ → (ℕ → Env G) → SharedState F G → Connection → List ℕ → Ending F G
  unfolding read_bytes read_request serve active_of
  session_bytes zero envs s c bs = out_of_fuel
  session_bytes (suc fuel) envs s c bs =
      elim (read_bytes (read_request {F = F} (active_of s c)) bs) [
        | none ↦ disconnected s []
        | some (command, rest) ↦
            go_on (serve (envs 0) (bits.of_bits 0) s c command)
              (λ s' c'. session_bytes fuel (λ i. envs (suc i)) s' c' rest)
      ]

  round-eq :
      (fuel : ℕ) (envs : ℕ → Env G) (s : SharedState F G) (c : Connection)
      (o : Option (Command F × Socket)) (p : Option (Command F × List ℕ))
      → Agrees o p
      → ((s' : SharedState F G) (c' : Connection) (socket' : Socket)
          → session fuel (λ i. envs (suc i)) s' c' socket'
            ≡ session_bytes fuel (λ i. envs (suc i)) s' c' (bytes socket'))
      → ◌≡◌ {A = Ending F G}
          (elim o [
            | none ↦ disconnected s []
            | some (command, socket') ↦
                go_on
                  (serve (envs 0) (bits.of_bits 0) s c command)
                  (λ s' c'. session fuel (λ i. envs (suc i)) s' c' socket')
          ])
          (elim p [
            | none ↦ disconnected s []
            | some (command, rest) ↦
                go_on
                  (serve (envs 0) (bits.of_bits 0) s c command)
                  (λ s' c'. session_bytes fuel (λ i. envs (suc i)) s' c' rest)
          ])
  round-eq fuel envs s c none none h ih = refl
  round-eq fuel envs s c none (some p) h ih = absurd h
  round-eq fuel envs s c (some p) none h ih = absurd h
  round-eq fuel envs s c (some (r, socket')) (some (r', rest)) h ih =
      rw (← h.0, ← h.1)
        (ap (go_on (serve (envs 0) (bits.of_bits 0) s c r))
          (fun_ext λ s'. fun_ext λ c'. ih s' c' socket'))

  -- What a session does depends on the bytes that arrive, not on the chunks in which they arrive.
  pub session-session_bytes :
      (fuel : ℕ) (envs : ℕ → Env G) (s : SharedState F G) (c : Connection) (socket : Socket)
      → session fuel envs s c socket ≡ session_bytes fuel envs s c (bytes socket)
  unfolding session session_bytes
  session-session_bytes zero envs s c socket = refl
  session-session_bytes (suc fuel) envs s c socket =
      round-eq fuel envs s c _ _ (read_socket-Agrees (read_request {F = F} (active_of s c)) socket)
        (λ s' c' socket'. session-session_bytes fuel (λ i. envs (suc i)) s' c' socket')

  go_on-ends :
      (o : Outcome F G) (next : SharedState F G → Connection → Ending F G)
      → ((s : SharedState F G) (c : Connection) → next s c ≢ out_of_fuel)
      → go_on o next ≢ out_of_fuel
  go_on-ends undefined next h e = cc
  go_on-ends (closed s) next h e = cc
  go_on-ends (replied s c answer) next h e = ground (arith, h s c)

  ends_if :
      (o : Option (Command F × List ℕ)) (env : Env G) (s : SharedState F G) (c : Connection)
      (next : List ℕ → SharedState F G → Connection → Ending F G)
      → ((command : Command F) (rest : List ℕ) (s' : SharedState F G) (c' : Connection)
          → o ≡ some (command, rest)
          → next rest s' c' ≢ out_of_fuel)
      → elim o [
        | none ↦ disconnected s []
        | some (command, rest) ↦ go_on (serve env (bits.of_bits 0) s c command) (next rest)
      ]
        ≢ out_of_fuel
  ends_if none env s c next h = λ e. cc
  ends_if (some (command, rest)) env s c next h =
      go_on-ends (serve env (bits.of_bits 0) s c command) (next rest)
        (λ s' c'. h command rest s' c' refl)

  session_bytes_ends :
      (fuel : ℕ) (envs : ℕ → Env G) (s : SharedState F G) (c : Connection) (bs : List ℕ)
      → length bs < fuel
      → session_bytes fuel envs s c bs ≢ out_of_fuel
  unfolding session_bytes
  session_bytes_ends zero envs s c bs lt = absurd (omega arith)
  session_bytes_ends (suc fuel) envs s c bs lt =
      ends_if (read_bytes (read_request {F = F} (active_of s c)) bs) (envs 0) s c
        (λ rest s' c'. session_bytes fuel (λ i. envs (suc i)) s' c' rest)
        (λ command rest s' c' got.
          session_bytes_ends fuel (λ i. envs (suc i)) s' c' rest
            (omega (arith, request-shrinks (active_of s c) bs rest command got)))

  -- With more rounds than bytes that arrive, a session comes to its end.
  pub session_ends :
      (fuel : ℕ) (envs : ℕ → Env G) (s : SharedState F G) (c : Connection) (socket : Socket)
      → length (bytes socket) < fuel
      → session fuel envs s c socket ≢ out_of_fuel
  session_ends fuel envs s c socket lt =
      rw (session-session_bytes fuel envs s c socket)
        (session_bytes_ends fuel envs s c (bytes socket) lt)
