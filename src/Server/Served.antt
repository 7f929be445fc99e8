-- ===== src/Server/Served.antt =====
-- A session of src/server.cpp with the reference client, Client/client.py.
use red_box_db.Base.{
  Bool, true, false, if◌then◌else◌, All, List, Option, [], ap, arith, fun_ext, length, none, refl,
  some, suc, sym, update_map, zero, ℕ, ◌++◌, ◌<◌, ◌∙◌, ◌∷◌, ◌≡◌, ◌≢◌,
}
use red_box_db.Floats.{Double, Float}
use red_box_db.Cluster.{Draws}
use red_box_db.Graph.{GraphIndex}
use red_box_db.Server.Client.{
  ClientCall, delete, drop_call, insert, insert_auto, meant, packet, search, search_n,
  set_hnsw_ef_call, set_probes_call, update,
}
use red_box_db.Engine.{Engine, get_dim}
use red_box_db.Server.{Bits, Connection, Env, SharedState}
use red_box_db.Server.Receive.{
  Action, Command, act, create_hnsw_db, drop_db, hang_up, open_dim, read_request, reject_name,
  select_db, use_freed,
}
use red_box_db.Server.Framing.{IsCall, read-packet}
use red_box_db.Server.Serve.{act_throws, closed, replied, Outcome, active_of, perform, serve}
use red_box_db.Server.Wire.Chunks.{read_bytes}
use red_box_db.Server.Outcomes.{perform_at_open}
use red_box_db.Server.Engines.{perform_dim}
use red_box_db.Server.Session.{
  Ending, after_answer, disconnected, go_on, session, session-session_bytes, session_bytes,
}
use red_box_db.Server.Wire.{Socket, bytes}

-- All that a client sends for its calls.
abbrev pub stream : List ClientCall → List ℕ
stream [] = []
stream (call ∷ calls) = packet call ++ stream calls

-- A call for a database of that dimension, and not `drop`.
abbrev pub IsRequest : ℕ → ClientCall → Type 0
IsRequest dim call = IsCall dim call × (call ≢ drop_call)

-- Every call but `drop` means an action.
meant_act :
    {F : Type 0} ⦃bits : Bits F⦄ (call : ClientCall)
    → call ≢ drop_call
    → (a : Action F) × (meant {F = F} call ≡ act a)
unfolding meant
meant_act (insert id vec) h = (_, refl)
meant_act (search vec) h = (_, refl)
meant_act (delete id) h = (_, refl)
meant_act (update id vec) h = (_, refl)
meant_act (insert_auto vec) h = (_, refl)
meant_act (search_n n vec) h = (_, refl)
meant_act drop_call h = absurd (h refl)
meant_act (set_probes_call n) h = (_, refl)
meant_act (set_hnsw_ef_call ef) h = (_, refl)

module _ {F G : Type 0} where
  abbrev pub with_engine : SharedState F G → ℕ → Engine F G → SharedState F G
  with_engine s p e = record s { heap = update_map s.heap p (some e) }

  with_engine-same :
      (s : SharedState F G) (p : ℕ) (e : Engine F G) → s.heap p ≡ some e → with_engine s p e ≡ s
  with_engine-same s p e eq =
      ap (λ (h : ℕ → Option (Engine F G)). record s { heap = h }) (fun_ext λ q. ground (arith, eq))

  with_engine-again :
      (s : SharedState F G) (p : ℕ) (e e' : Engine F G)
      → with_engine (with_engine s p e) p e' ≡ with_engine s p e'
  with_engine-again s p e e' =
      ap (λ (h : ℕ → Option (Engine F G)). record s { heap = h }) (fun_ext λ q. ground arith)

  go_on-if :
      (b : Bool) (s : SharedState F G) (c : Connection) (answer : List ℕ)
      (next : SharedState F G → Connection → Ending F G)
      → go_on (if b then closed s else replied s c answer) next
        ≡ (if b then disconnected s [] else after_answer answer (next s c))
  go_on-if true s c answer next = refl
  go_on-if false s c answer next = refl

  -- A round, and what the rest of the calls does if it did not throw.
  merge_round :
      (b : Bool) (s : SharedState F G) (p : ℕ) (e e' : Engine F G) (answer answers : List ℕ)
      (rest : Ending F G)
      → rest ≡ disconnected (with_engine (with_engine s p e) p e') answers
      → (if b then disconnected (with_engine s p e) [] else after_answer answer rest) ≡ (
          let r : Engine F G × List ℕ = if b then (e, []) else (e', answer ++ answers) in
          disconnected (with_engine s p r.0) r.1)
  merge_round true s p e e' answer answers rest h = refl
  merge_round false s p e e' answer answers rest h =
      ap (after_answer answer) h
      ∙ ap (λ s'. disconnected s' (answer ++ answers)) (with_engine-again s p e e')

module _ {F G : Type 0} ⦃fl : Float F⦄ ⦃db : Double F⦄ ⦃draws : Draws F⦄
    ⦃graph : GraphIndex F G⦄ where
  -- The calls on a database one after another, with their answers; the calls of `drop` are left out.
  abbrev pub play_one : Env G → Engine F G → Command F → Engine F G × List ℕ
  play_one env e reject_name = (e, [])
  play_one env e hang_up = (e, [])
  play_one env e use_freed = (e, [])
  play_one env e (select_db name dim cap) = (e, [])
  play_one env e (create_hnsw_db name dim cap m ef) = (e, [])
  play_one env e drop_db = (e, [])
  play_one env e (act a) = perform env e a

  -- A call that throws ends the connection.
  abbrev pub call_throws : Env G → Engine F G → Command F → Bool
  call_throws env e (act a) = act_throws env e a
  call_throws env e command = false

module _ {F G : Type 0} ⦃fl : Float F⦄ ⦃db : Double F⦄ ⦃draws : Draws F⦄ ⦃graph : GraphIndex F G⦄
    ⦃bits : Bits F⦄ where
  unfoldable pub play : (ℕ → Env G) → Engine F G → List ClientCall → Engine F G × List ℕ
  unfolding meant
  play envs e [] = (e, [])
  play envs e (call ∷ calls) =
      let (e', answer) = play_one (envs 0) e (meant call) in
      let (e'', answers) = play (λ i. envs (suc i)) e' calls in
      if call_throws (envs 0) e (meant call) then (e', []) else (e'', answer ++ answers)

  play-act :
      (envs : ℕ → Env G) (e : Engine F G) (call : ClientCall) (calls : List ClientCall)
      (a : Action F)
      → meant call ≡ act a
      → play envs e (call ∷ calls) ≡ (
          let (e', answer) = perform (envs 0) e a in
          let (e'', answers) = play (λ i. envs (suc i)) e' calls in
          if act_throws (envs 0) e a then (e', []) else (e'', answer ++ answers))
  unfolding play
  play-act envs e call calls a eq = rw eq refl

  -- One round with an action.
  session_round :
      (fuel : ℕ) (envs : ℕ → Env G) (s : SharedState F G) (p : ℕ) (e : Engine F G) (a : Action F)
      (bs rest : List ℕ)
      → s.heap p ≡ some e
      → read_bytes (read_request {F = F} (active_of s (some p))) bs ≡ some (act a, rest)
      → session_bytes (suc fuel) envs s (some p) bs ≡ (
          let s' = with_engine s p (perform (envs 0) e a).0 in
          if act_throws (envs 0) e a
          then disconnected s' []
          else after_answer
              (perform (envs 0) e a).1
              (session_bytes fuel (λ i. envs (suc i)) s' (some p) rest))
  unfolding session_bytes serve
  session_round fuel envs s p e a bs rest eq read =
      let next = λ (s' : SharedState F G) (c' : Connection).
        session_bytes fuel (λ i. envs (suc i)) s' c' rest in
      ap
        (λ (o : Option (Command F × List ℕ)). elim o [
          | none ↦ disconnected s []
          | some (command, rest') ↦
              go_on (serve (envs 0) (bits.of_bits 0) s (some p) command)
                (λ s' c'. session_bytes fuel (λ i. envs (suc i)) s' c' rest')
        ])
        read
      ∙ ap (λ (o : Outcome F G). go_on o next) (perform_at_open (envs 0) s p e a eq)
      ∙ go_on-if (act_throws (envs 0) e a) (with_engine s p (perform (envs 0) e a).0) _ _ next

  active_dim :
      (s : SharedState F G) (p : ℕ) (e : Engine F G)
      → s.heap p ≡ some e
      → e.dimension < 536870912
      → active_of s (some p) ≡ open_dim e.dimension
  unfolding active_of get_dim
  active_dim s p e eq small = ground (arith, eq)

  session_plays :
      (calls : List ClientCall) (fuel : ℕ) (envs : ℕ → Env G) (s : SharedState F G) (p : ℕ)
      (e : Engine F G)
      → s.heap p ≡ some e
      → e.dimension < 536870912
      → All (IsRequest e.dimension) calls
      → length calls < fuel
      → session_bytes fuel envs s (some p) (stream calls)
        ≡ disconnected (with_engine s p (play envs e calls).0) (play envs e calls).1
  unfolding session_bytes play
  session_plays calls zero envs s p e eq small sized enough = absurd (omega arith)
  session_plays [] (suc fuel) envs s p e eq small sized enough =
      unfold read_request read_bytes in
      ap (λ s. disconnected s []) (sym (with_engine-same s p e eq))
  session_plays (call ∷ calls) (suc fuel) envs s p e eq small ((fits, kept), sized) enough =
      let (a, means) = meant_act call kept in
      let e' = (perform (envs 0) e a).0 in
      let same = perform_dim (envs 0) e a in
      let read : read_bytes (read_request (active_of s (some p))) (packet call ++ stream calls)
          ≡ some (act a, stream calls) =
        rw (active_dim s p e eq small) (
          read-packet e.dimension call (stream calls) small fits
          ∙ ap (λ command. some (command, stream calls)) means) in
      let small' : e'.dimension < 536870912 = rw same small in
      let sized' : All (IsRequest e'.dimension) calls = rw same sized in
      let ih =
        session_plays calls fuel (λ i. envs (suc i)) (with_engine s p e') p e' (ground arith) small'
          sized' (omega arith) in
      session_round fuel envs s p e a (packet call ++ stream calls) (stream calls) eq read
      ∙ merge_round (act_throws (envs 0) e a) s p e' _ (perform (envs 0) e a).1 _ _ ih
      ∙ ap (λ r. disconnected (with_engine s p r.0) r.1) (sym (play-act envs e call calls a means))

  -- The bytes of a client's calls on its database, other than `drop`, may arrive in any chunks: each
  -- call is served in its turn, with the answers of the calls made one after another, until the
  -- client goes away, or a removal throws, which ends the connection. The vectors have the dimension of the database, which is below 2^29.
  pub session-play :
      (calls : List ClientCall) (socket : Socket) (fuel : ℕ) (envs : ℕ → Env G)
      (s : SharedState F G) (p : ℕ) (e : Engine F G)
      → s.heap p ≡ some e
      → e.dimension < 536870912
      → All (IsRequest e.dimension) calls
      → bytes socket ≡ stream calls
      → length calls < fuel
      → session fuel envs s (some p) socket
        ≡ disconnected (with_engine s p (play envs e calls).0) (play envs e calls).1
  session-play calls socket fuel envs s p e eq small sized arrive enough =
      session-session_bytes fuel envs s (some p) socket
      ∙ ap (session_bytes fuel envs s (some p)) arrive
      ∙ session_plays calls fuel envs s p e eq small sized enough
