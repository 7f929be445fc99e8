-- ===== src/Server/Client.antt =====
-- The packets of Client/client.py, the reference client, and of redbox-sdk/redboxdb/client.py.
use red_box_db.Base.{List, [], length, map, ℕ, ◌++◌, ◌∷◌}
use red_box_db.Server.{Bits, Name}
use red_box_db.Server.Wire.{le}
use red_box_db.Server.Receive.{
  Command, act, delete_id, drop_db, insert_auto_vec, insert_vec, search_n_vec, search_vec,
  set_hnsw_ef, set_probes, update_vec,
}

-- `struct.pack('<BI', cmd, meta)`
unfoldable pub packet_header : ℕ → ℕ → List ℕ
packet_header cmd meta = cmd ∷ le 4 meta

-- `_handshake`
unfoldable pub handshake : Name → ℕ → ℕ → List ℕ
unfolding packet_header
handshake name dim capacity = packet_header 4 (length name) ++ (name ++ (le 4 dim ++ le 4 capacity))

-- `_handshake_hnsw`
unfoldable pub handshake_hnsw : Name → ℕ → ℕ → ℕ → ℕ → List ℕ
unfolding packet_header
handshake_hnsw name dim capacity m ef =
    packet_header 10 (length name) ++ (name ++ (le 4 dim ++ (le 4 capacity ++ (le 1 m ++ le 2 ef))))

-- `_handshake` of the redbox-sdk client, which sends no capacity.
unfoldable pub sdk_handshake : Name → ℕ → List ℕ
unfolding packet_header
sdk_handshake name dim = packet_header 4 (length name) ++ (name ++ le 4 dim)

-- `vector.astype(np.float32).tobytes()`, of the bits of its floats.
unfoldable pub vector_bytes : List ℕ → List ℕ
unfolding le
vector_bytes [] = []
vector_bytes (x ∷ xs) = le 4 x ++ vector_bytes xs

-- The calls of the client, with vectors given by the bits of their floats.
pub data ClientCall : Type 0 where
  insert : ℕ → List ℕ → ClientCall
  search : List ℕ → ClientCall
  delete : ℕ → ClientCall
  update : ℕ → List ℕ → ClientCall
  insert_auto : List ℕ → ClientCall
  search_n : ℕ → List ℕ → ClientCall
  drop_call : ClientCall
  set_probes_call : ℕ → ClientCall
  set_hnsw_ef_call : ℕ → ClientCall

unfoldable pub packet : ClientCall → List ℕ
unfolding packet_header vector_bytes
packet (insert id vec) = packet_header 1 id ++ vector_bytes vec
packet (search vec) = packet_header 2 0 ++ vector_bytes vec
packet (delete id) = packet_header 3 id
packet (update id vec) = packet_header 5 id ++ vector_bytes vec
packet (insert_auto vec) = packet_header 6 0 ++ vector_bytes vec
packet (search_n n vec) = packet_header 7 n ++ vector_bytes vec
packet drop_call = packet_header 8 0
packet (set_probes_call n) = packet_header 9 n
packet (set_hnsw_ef_call ef) = packet_header 11 ef

module _ {F : Type 0} ⦃bits : Bits F⦄ where
  -- What the server should make of it.
  unfoldable pub meant : ClientCall → Command F
  meant (insert id vec) = act (insert_vec id (map bits.of_bits vec))
  meant (search vec) = act (search_vec (map bits.of_bits vec))
  meant (delete id) = act (delete_id id)
  meant (update id vec) = act (update_vec id (map bits.of_bits vec))
  meant (insert_auto vec) = act (insert_auto_vec (map bits.of_bits vec))
  meant (search_n n vec) = act (search_n_vec n (map bits.of_bits vec))
  meant drop_call = drop_db
  meant (set_probes_call n) = act (set_probes n)
  meant (set_hnsw_ef_call ef) = act (set_hnsw_ef ef)
