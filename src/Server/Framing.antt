-- ===== src/Server/Framing.antt =====
-- The server reads back the packets of its clients (src/server.cpp, Client/client.py), or does not.
use red_box_db.Base.{
  All, List, [], ap, ap₂, arith, drop, drop-append_left, drop_all, false, get_or, leb, length,
  length-append, map, refl, some, suc, take-append_left, take_all, ℕ, ◌*◌, ◌++◌, ◌<◌, ◌∙◌, ◌∷◌, ◌≡◌,
}
use red_box_db.Server.{Bits}
use red_box_db.Server.Wire.{Read, done, le, le_value, receive}
use red_box_db.Server.Wire.Chunks.{read_bytes}
use red_box_db.Server.Wire.Numbers.{Fits-4, le_value-le, length-le, read_bytes-receive}
use red_box_db.Server.Receive.{
  Action, Active, act, floats, insert_auto_vec, insert_vec, open_dim, read_active, read_command,
  read_request, read_vec, search_n_vec, search_vec, update_vec, vec_byte_size,
}
use red_box_db.Server.Client.{
  ClientCall, delete, drop_call, packet_header, insert, insert_auto, meant, packet, search,
  search_n, set_hnsw_ef_call, set_probes_call, update, vector_bytes,
}

abbrev pub Word : ℕ → Type 0
Word x = x < 4294967296

-- What the client's own checks ensure: a word where one is packed, and a vector of the dimension.
abbrev pub IsCall : ℕ → ClientCall → Type 0
IsCall dim (insert id vec) = Word id × (length vec ≡ dim) × All Word vec
IsCall dim (search vec) = (length vec ≡ dim) × All Word vec
IsCall dim (delete id) = Word id
IsCall dim (update id vec) = Word id × (length vec ≡ dim) × All Word vec
IsCall dim (insert_auto vec) = (length vec ≡ dim) × All Word vec
IsCall dim (search_n n vec) = Word n × (length vec ≡ dim) × All Word vec
IsCall dim drop_call = Unit {0}
IsCall dim (set_probes_call n) = Word n
IsCall dim (set_hnsw_ef_call ef) = Word ef

length-vector_bytes : (vec : List ℕ) → length (vector_bytes vec) ≡ length vec * 4
unfolding vector_bytes
length-vector_bytes [] = refl
length-vector_bytes (x ∷ xs) =
    omega (arith, length-append (le 4 x) (vector_bytes xs), length-le 4 x, length-vector_bytes xs)

pub read_word :
    {A : Type 0} (k x : ℕ) (next : List ℕ → Read A) (rest : List ℕ)
    → read_bytes (receive k next) (le k x ++ rest) ≡ read_bytes (next (le k x)) rest
read_word k x next rest = read_bytes-receive k next (le k x) rest (length-le k x)

module _ {F : Type 0} ⦃bits : Bits F⦄ where
  floats_word :
      (count : ℕ) (w rest : List ℕ)
      → length w ≡ 4
      → floats (suc count) (w ++ rest) ≡ bits.of_bits (le_value w) ∷ floats count rest
  unfolding floats
  floats_word count w rest e =
      let taken = take-append_left 4 w rest (omega arith) ∙ take_all 4 w (omega arith) in
      let left : drop 4 (w ++ rest) ≡ rest =
        drop-append_left 4 w rest (omega arith)
        ∙ ap (λ d. d ++ rest) (drop_all 4 w (omega arith)) in
      ap₂ (λ a b. bits.of_bits (le_value a) ∷ floats count b) taken left

  floats-vector_bytes :
      (vec : List ℕ) → All Word vec → floats (length vec) (vector_bytes vec) ≡ map bits.of_bits vec
  unfolding vector_bytes
  floats-vector_bytes [] h = unfold floats in refl
  floats-vector_bytes (x ∷ xs) h =
      floats_word (length xs) (le 4 x) (vector_bytes xs) (length-le 4 x)
      ∙ ap₂ (λ k ks. bits.of_bits k ∷ ks) (le_value-le 4 x (Fits-4 x h.0))
          (floats-vector_bytes xs h.1)

  pub read_header :
      (active : Active) (cmd meta : ℕ) (rest : List ℕ)
      → Word meta
      → read_bytes (read_request {F = F} active) (packet_header cmd meta ++ rest)
        ≡ read_bytes (read_command active cmd meta) rest
  unfolding read_request packet_header
  read_header active cmd meta rest w =
      let e =
        read_bytes-receive 5 (λ h. read_command {F = F} active (get_or h 0 0) (le_value (drop 1 h)))
          (cmd ∷ le 4 meta) rest (omega (arith, length-le 4 meta)) in
      e
      ∙ ap (λ k. read_bytes (read_command {F = F} active cmd k) rest)
          (le_value-le 4 meta (Fits-4 meta w))

  read_vector :
      (dim : ℕ) (next : List F → Action F) (vec rest : List ℕ)
      → dim < 536870912
      → length vec ≡ dim
      → All Word vec
      → read_bytes (read_vec dim next) (vector_bytes vec ++ rest)
        ≡ some (act (next (map bits.of_bits vec)), rest)
  unfolding read_vec
  read_vector dim next vec rest small len words =
      let able : leb 2147483648 dim ≡ false = ground arith in
      let size : vec_byte_size dim ≡ dim * 4 = unfold vec_byte_size in ground arith in
      let decoded : floats dim (vector_bytes vec) ≡ map bits.of_bits vec =
        rw (← len) (floats-vector_bytes vec words) in
      let read =
        read_bytes-receive (dim * 4) (λ bs. done (act (next (floats dim bs)))) (vector_bytes vec)
          rest (omega (arith, length-vector_bytes vec)) in
      rw (able, size, read) (unfold read_bytes in ap (λ v. some (act (next v), rest)) decoded)

  read_active_vec :
      (dim cmd meta : ℕ) (next : List F → Action F) (vec rest : List ℕ)
      → Word meta
      → read_command {F = F} (open_dim dim) cmd meta ≡ read_vec dim next
      → dim < 536870912
      → length vec ≡ dim
      → All Word vec
      → read_bytes
          (read_request {F = F} (open_dim dim))
          (packet_header cmd meta ++ (vector_bytes vec ++ rest))
        ≡ some (act (next (map bits.of_bits vec)), rest)
  read_active_vec dim cmd meta next vec rest w e small len words =
      read_header (open_dim dim) cmd meta (vector_bytes vec ++ rest) w
      ∙ (rw e (read_vector dim next vec rest small len words))

  -- The server reads each packet of the reference client as the call that was made, and leaves what
  -- follows it, if the vector has the dimension of the active database, which is below 2^29.
  pub read-packet :
      (dim : ℕ) (call : ClientCall) (rest : List ℕ)
      → dim < 536870912
      → IsCall dim call
      → read_bytes (read_request {F = F} (open_dim dim)) (packet call ++ rest)
        ≡ some (meant call, rest)
  unfolding packet meant read_command read_active
  read-packet dim (insert id vec) rest small h =
      read_active_vec dim 1 id (insert_vec id) vec rest h.0 refl small h.1 h.2
  read-packet dim (search vec) rest small h =
      read_active_vec dim 2 0 search_vec vec rest (omega arith) refl small h.0 h.1
  read-packet dim (delete id) rest small h =
      read_header (open_dim dim) 3 id rest h ∙ unfold read_bytes in refl
  read-packet dim (update id vec) rest small h =
      read_active_vec dim 5 id (update_vec id) vec rest h.0 refl small h.1 h.2
  read-packet dim (insert_auto vec) rest small h =
      read_active_vec dim 6 0 insert_auto_vec vec rest (omega arith) refl small h.0 h.1
  read-packet dim (search_n n vec) rest small h =
      read_active_vec dim 7 n (search_n_vec n) vec rest h.0 refl small h.1 h.2
  read-packet dim drop_call rest small h =
      read_header (open_dim dim) 8 0 rest (omega arith) ∙ unfold read_bytes in refl
  read-packet dim (set_probes_call n) rest small h =
      read_header (open_dim dim) 9 n rest h ∙ unfold read_bytes in refl
  read-packet dim (set_hnsw_ef_call ef) rest small h =
      read_header (open_dim dim) 11 ef rest h ∙ unfold read_bytes in refl
