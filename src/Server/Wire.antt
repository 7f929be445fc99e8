-- ===== src/Server/Wire.antt =====
-- The byte stream of a client of src/server.cpp: `recv_all`, `send_all` and little-endian integers.
pub mod Chunks
pub mod Numbers
pub mod Sending
use red_box_db.Base.{
  Bool, List, Option, [], drop, false, length, none, some, suc, take, true, zero, ℕ, ◌%◌, ◌*◌, ◌++◌,
  ◌+◌, ◌-◌, ◌/◌, ◌∷◌,
}

-- The k low bytes of x.
unfoldable pub le : ℕ → ℕ → List ℕ
le zero x = []
le (suc k) x = x % 256 ∷ le k (x / 256)

unfoldable pub le_value : List ℕ → ℕ
le_value [] = 0
le_value (b ∷ bs) = b + 256 * le_value bs

-- What the calls of `recv` find, one chunk after another. At an empty chunk, and at the end, the
-- call returns no positive number.
abbrev pub Socket : Type 0
Socket = List (List ℕ)

-- The bytes that a client can still get through.
unfoldable pub bytes : Socket → List ℕ
bytes [] = []
bytes ([] ∷ s) = []
bytes ((b ∷ bs) ∷ s) = (b ∷ bs) ++ bytes s

-- What a call leaves of a chunk.
abbrev pub keep : List ℕ → Socket → Socket
keep [] s = s
keep (b ∷ bs) s = (b ∷ bs) ∷ s

-- `recv(client_socket, buf, len, 0)`; `none` where it returns no positive number.
unfoldable pub recv : Socket → ℕ → Option (List ℕ × Socket)
recv [] len = none
recv ([] ∷ s) len = none
recv ((b ∷ bs) ∷ s) len = some (take len (b ∷ bs), keep (drop len (b ∷ bs)) s)

abbrev pub put_before : {S : Type 0} → List ℕ → Option (List ℕ × S) → Option (List ℕ × S)
put_before got none = none
put_before got (some (rest, s)) = some (got ++ rest, s)

-- The loop of `recv_all`, with `missing` = `len - total`. Each call gets a byte at least, so `len`
-- rounds are enough.
unfoldable pub recv_loop : ℕ → ℕ → Socket → Option (List ℕ × Socket)
unfolding recv
recv_loop fuel zero s = some ([], s)
recv_loop zero (suc missing) s = none
recv_loop (suc fuel) (suc missing) s = elim (recv s (suc missing)) [
  | none ↦ none
  | some (got, s') ↦ put_before got (recv_loop fuel (suc missing - length got) s')
]

unfoldable pub recv_all : ℕ → Socket → Option (List ℕ × Socket)
unfolding recv_loop
recv_all len s = recv_loop len len s

-- What a call of `send` reports: bytes sent, an interruption by a signal, or a failure.
pub data Sent : Type 0 where
  sent : ℕ → Sent
  interrupted : Sent
  send_failed : Sent

-- `send_all`, over the reports of its calls: what goes out, and whether it is all. Where the reports
-- end the connection does.
unfoldable pub send_all : List ℕ → List Sent → List ℕ × Bool
send_all [] reports = ([], true)
send_all (b ∷ bs) [] = ([], false)
send_all (b ∷ bs) (interrupted ∷ reports) = send_all (b ∷ bs) reports
send_all (b ∷ bs) (send_failed ∷ reports) = ([], false)
send_all (b ∷ bs) (sent zero ∷ reports) = ([], false)
send_all (b ∷ bs) (sent (suc n) ∷ reports) =
    let (out, whole) = send_all (drop (suc n) (b ∷ bs)) reports in
    (take (suc n) (b ∷ bs) ++ out, whole)

-- What a part of the protocol reads: a number of bytes by `recv_all`, and on with those.
pub data Read (A : Type 0) : Type 0 where
  done : A → Read A
  receive : ℕ → (List ℕ → Read A) → Read A

-- Over the socket; `none` where a `recv_all` fails.
unfoldable pub read_socket : {A : Type 0} → Read A → Socket → Option (A × Socket)
unfolding recv_all
read_socket (done a) s = some (a, s)
read_socket (receive len next) s = elim (recv_all len s) [
  | none ↦ none
  | some (got, s') ↦ read_socket (next got) s'
]
