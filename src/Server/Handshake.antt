-- ===== src/Server/Handshake.antt =====
-- How the server (src/server.cpp) reads the packets that name a database: Client/client.py and
-- redbox-sdk/redboxdb/client.py send them.
use mathlib.Core.List.{append-nil, append_assoc}
use red_box_db.Base.{
  List, [], ap, ap₂, arith, false, if◌then◌else◌, length, ltb, ltb_of_ge, none, refl, some, sym,
  true, ℕ, ◌++◌, ◌<◌, ◌∙◌, ◌∷◌, ◌≡◌, ◌≤◌,
}
use red_box_db.Server.{Bits, Name, is_valid_db_name, max_db_name_len}
use red_box_db.Server.Wire.{Read, done, le, le_value, receive}
use red_box_db.Server.Wire.Chunks.{read_bytes, take_bytes}
use red_box_db.Server.Wire.Numbers.{Fits-1, Fits-2, Fits-4, le_value-le, read_bytes-receive}
use red_box_db.Server.Receive.{
  Active, Command, create_hnsw_db, read_command, read_create_hnsw, read_name, read_request,
  read_select, reject_name, select_db,
}
use red_box_db.Server.Client.{handshake, handshake_hnsw, packet_header, sdk_handshake}
use red_box_db.Server.Framing.{Word, read_header, read_word}

pub valid-length : (name : Name) → is_valid_db_name name ≡ true → length name ≤ max_db_name_len
unfolding is_valid_db_name
valid-length [] h = cc
valid-length (c ∷ cs) h = ground arith

valid-Word : (name : Name) → is_valid_db_name name ≡ true → Word (length name)
valid-Word name valid = omega (arith, valid-length name valid)

module _ {F : Type 0} where
  read_valid_name :
      (name : Name) (next : Name → Read (Command F)) (rest : List ℕ)
      → is_valid_db_name name ≡ true
      → read_bytes (read_name (length name) next) (name ++ rest) ≡ read_bytes (next name) rest
  unfolding read_name
  read_valid_name name next rest valid =
      let short : ltb max_db_name_len (length name) ≡ false =
        ltb_of_ge _ _ (valid-length name valid) in
      let e =
        read_bytes-receive (length name)
          (λ n. if is_valid_db_name n then next n else done reject_name) name rest refl in
      rw short (e ∙ ap (λ b. read_bytes (if b then next name else done reject_name) rest) valid)

  read_bad_name :
      (name : Name) (next : Name → Read (Command F)) (rest : List ℕ)
      → length name ≤ max_db_name_len
      → is_valid_db_name name ≡ false
      → read_bytes (read_name (length name) next) (name ++ rest) ≡ some (reject_name, rest)
  unfolding read_name
  read_bad_name name next rest le bad =
      let short : ltb max_db_name_len (length name) ≡ false = ltb_of_ge _ _ le in
      let e =
        read_bytes-receive (length name)
          (λ n. if is_valid_db_name n then next n else done reject_name) name rest refl in
      rw short (
        e
        ∙ ap (λ b. read_bytes (if b then next name else done reject_name) rest) bad
        ∙ unfold read_bytes in refl)

module _ {F : Type 0} ⦃bits : Bits F⦄ (active : Active) where
  -- What a packet's header brings, where the packet goes on with more.
  read_start :
      (cmd meta : ℕ) (xs ys : List ℕ)
      → Word meta
      → read_bytes (read_request {F = F} active) ((packet_header cmd meta ++ xs) ++ ys)
        ≡ read_bytes (read_command active cmd meta) (xs ++ ys)
  read_start cmd meta xs ys w =
      rw (append_assoc (packet_header cmd meta) xs ys) (read_header active cmd meta (xs ++ ys) w)

  read-handshake :
      (name : Name) (dim capacity : ℕ) (rest : List ℕ)
      → is_valid_db_name name ≡ true
      → Word dim
      → Word capacity
      → read_bytes (read_request {F = F} active) (handshake name dim capacity ++ rest)
        ≡ some (select_db name dim capacity, rest)
  unfolding handshake read_command read_select
  read-handshake name dim capacity rest valid d c =
      let fields = le 4 dim ++ le 4 capacity in
      let last = λ (d' c' : List ℕ). done (select_db name (le_value d') (le_value c')) in
      read_start 4 (length name) (name ++ fields) rest (valid-Word name valid)
      ∙ (rw (append_assoc name fields rest, append_assoc (le 4 dim) (le 4 capacity) rest)
          (read_valid_name name
              (λ n. receive 4 λ d'. receive 4 λ c'. done (select_db n (le_value d') (le_value c')))
              (le 4 dim ++ (le 4 capacity ++ rest)) valid
            ∙ read_word 4 dim (λ d'. receive 4 (last d')) (le 4 capacity ++ rest)
            ∙ read_word 4 capacity (last (le 4 dim)) rest
            ∙ unfold read_bytes in
              ap₂ (λ a b. some (select_db name a b, rest)) (le_value-le 4 dim (Fits-4 dim d))
                (le_value-le 4 capacity (Fits-4 capacity c))))

  read-handshake_hnsw :
      (name : Name) (dim capacity m ef : ℕ) (rest : List ℕ)
      → is_valid_db_name name ≡ true
      → Word dim
      → Word capacity
      → m < 256
      → ef < 65536
      → read_bytes (read_request {F = F} active) (handshake_hnsw name dim capacity m ef ++ rest)
        ≡ some (create_hnsw_db name dim capacity m ef, rest)
  unfolding handshake_hnsw read_command read_create_hnsw
  read-handshake_hnsw name dim capacity m ef rest valid d c m1 e2 =
      let tail = le 1 m ++ le 2 ef in
      let fields = le 4 dim ++ (le 4 capacity ++ tail) in
      let last = λ (d' c' m' e' : List ℕ).
        done (create_hnsw_db name (le_value d') (le_value c') (le_value m') (le_value e')) in
      read_start 10 (length name) (name ++ fields) rest (valid-Word name valid)
      ∙ (rw
          (
            append_assoc name fields rest,
            append_assoc (le 4 dim) (le 4 capacity ++ tail) rest,
            append_assoc (le 4 capacity) tail rest,
            append_assoc (le 1 m) (le 2 ef) rest,
          )
          (read_valid_name name
              (λ n. receive 4 λ d'. receive 4 λ c'. receive 1 λ m'. receive 2 λ e'.
                done (create_hnsw_db n (le_value d') (le_value c') (le_value m') (le_value e')))
              (le 4 dim ++ (le 4 capacity ++ (le 1 m ++ (le 2 ef ++ rest)))) valid
            ∙ read_word 4 dim (λ d'. receive 4 λ c'. receive 1 λ m'. receive 2 (last d' c' m'))
                (le 4 capacity ++ (le 1 m ++ (le 2 ef ++ rest)))
            ∙ read_word 4 capacity (λ c'. receive 1 λ m'. receive 2 (last (le 4 dim) c' m'))
                (le 1 m ++ (le 2 ef ++ rest))
            ∙ read_word 1 m (λ m'. receive 2 (last (le 4 dim) (le 4 capacity) m')) (le 2 ef ++ rest)
            ∙ read_word 2 ef (last (le 4 dim) (le 4 capacity) (le 1 m)) rest
            ∙ unfold read_bytes in
              rw
                (
                  le_value-le 4 dim (Fits-4 dim d),
                  le_value-le 4 capacity (Fits-4 capacity c),
                  le_value-le 1 m (Fits-1 m m1),
                  le_value-le 2 ef (Fits-2 ef e2),
                )
                refl))

  -- With a valid name, either handshake of the reference client is read as the selection or the
  -- creation that it was meant for, with its numbers, whatever database is active, and what follows
  -- it is left.
  pub read_request-handshake :
      (name : Name) (dim capacity m ef : ℕ) (rest : List ℕ)
      → is_valid_db_name name ≡ true
      → Word dim
      → Word capacity
      → m < 256
      → ef < 65536
      → (read_bytes (read_request {F = F} active) (handshake name dim capacity ++ rest)
          ≡ some (select_db name dim capacity, rest))
        × (read_bytes (read_request {F = F} active) (handshake_hnsw name dim capacity m ef ++ rest)
            ≡ some (create_hnsw_db name dim capacity m ef, rest))
  read_request-handshake name dim capacity m ef rest valid d c m1 e2 = (
    read-handshake name dim capacity rest valid d c,
    read-handshake_hnsw name dim capacity m ef rest valid d c m1 e2,
  )

  -- A name of at most 64 bytes that is not valid is refused before the dimension and the capacity are
  -- read, so that the server takes these eight bytes for the start of the next command.
  pub reject_desyncs :
      (name : Name) (dim capacity : ℕ) (rest : List ℕ)
      → length name ≤ max_db_name_len
      → is_valid_db_name name ≡ false
      → read_bytes (read_request {F = F} active) (handshake name dim capacity ++ rest)
        ≡ some (reject_name, le 4 dim ++ (le 4 capacity ++ rest))
  unfolding handshake read_command read_select
  reject_desyncs name dim capacity rest le64 bad =
      let fields = le 4 dim ++ le 4 capacity in
      read_start 4 (length name) (name ++ fields) rest (omega arith)
      ∙ (rw (append_assoc name fields rest, append_assoc (le 4 dim) (le 4 capacity) rest)
          (read_bad_name name
            (λ n. receive 4 λ d'. receive 4 λ c'. done (select_db n (le_value d') (le_value c')))
            (le 4 dim ++ (le 4 capacity ++ rest)) le64 bad))

  -- With a valid name, the handshake of the redbox-sdk client lacks the capacity: the server reads
  -- all of it and still waits for bytes, while the client waits for the answer.
  pub sdk_handshake_starves :
      (name : Name) (dim : ℕ)
      → is_valid_db_name name ≡ true
      → Word dim
      → read_bytes (read_request {F = F} active) (sdk_handshake name dim) ≡ none
  unfolding sdk_handshake read_command read_select
  sdk_handshake_starves name dim valid d =
      let last = λ (d' c' : List ℕ). done (select_db name (le_value d') (le_value c')) in
      read_header active 4 (length name) (name ++ le 4 dim) (valid-Word name valid)
      ∙ read_valid_name name
          (λ n. receive 4 λ d'. receive 4 λ c'. done (select_db n (le_value d') (le_value c')))
          (le 4 dim) valid
      ∙ ap (read_bytes (receive 4 λ d'. receive 4 (last d'))) (sym (append-nil (le 4 dim)))
      ∙ read_word 4 dim (λ d'. receive 4 (last d')) []
      ∙ unfold read_bytes take_bytes in refl
