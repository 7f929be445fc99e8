-- ===== src/Server/Wire/Chunks.antt =====
-- Reading by src/server.cpp depends on the bytes that arrive, and not on how they are cut into chunks.
use red_box_db.Base.{
  Bool-cases, List, Option, Option-cases, [], ap, arith, drop, drop-append_left, drop-append_right,
  drop_all, false, if◌then◌else◌, inl, inr, leb, leb→le, length, length-append, length-drop,
  length-take, none, refl, some, suc, take, take-append_left, take-append_right, take_all, true,
  zero, ℕ, ◌++◌, ◌+◌, ◌-◌, ◌∙◌, ◌∷◌, ◌≡◌, ◌≤◌,
}
use mathlib.Core.List.{append-nil}
use red_box_db.Server.Wire.{
  Read, Socket, bytes, done, keep, put_before, read_socket, receive, recv_all, recv_loop,
}

-- Reading from the bytes at once.
unfoldable pub take_bytes : ℕ → List ℕ → Option (List ℕ × List ℕ)
take_bytes len bs = if leb len (length bs) then some (take len bs, drop len bs) else none

unfoldable pub read_bytes : {A : Type 0} → Read A → List ℕ → Option (A × List ℕ)
unfolding take_bytes
read_bytes (done a) bs = some (a, bs)
read_bytes (receive len next) bs = elim (take_bytes len bs) [
  | none ↦ none
  | some (got, rest) ↦ read_bytes (next got) rest
]

-- The same value, and the same bytes left; or both fail.
abbrev pub Agrees : {A : Type 0} → Option (A × Socket) → Option (A × List ℕ) → Type 0
Agrees none none = Unit {0}
Agrees none (some p) = ⊥
Agrees (some p) none = ⊥
Agrees (some (a, s)) (some (b, bs)) = (a ≡ b) × (bytes s ≡ bs)

bytes-keep : (c : List ℕ) (s : Socket) → bytes (keep c s) ≡ c ++ bytes s
unfolding bytes
bytes-keep [] s = refl
bytes-keep (b ∷ bs) s = refl

take_bytes-append_left :
    (n : ℕ) (c r : List ℕ) → n ≤ length c → take_bytes n (c ++ r) ≡ some (take n c, drop n c ++ r)
unfolding take_bytes
take_bytes-append_left n c r within =
    let fits : leb n (length (c ++ r)) ≡ true = ground (arith, length-append c r) in
    rw (fits, take-append_left n c r within, drop-append_left n c r within) refl

take_bytes-append_right :
    (n : ℕ) (c r : List ℕ) → take_bytes (length c + n) (c ++ r) ≡ put_before c (take_bytes n r)
unfolding take_bytes
take_bytes-append_right n c r = elim (Bool-cases (leb n (length r))) [
  | inl fits ↦
      let fits' : leb (length c + n) (length (c ++ r)) ≡ true = ground (arith, length-append c r) in
      rw (fits, fits', take-append_right n c r, drop-append_right n c r) refl
  | inr short ↦
      let short' : leb (length c + n) (length (c ++ r)) ≡ false =
        ground (arith, length-append c r) in
      rw (short, short') refl
]

Agrees-put_before :
    (c : List ℕ) (o : Option (List ℕ × Socket)) (p : Option (List ℕ × List ℕ))
    → Agrees o p
    → Agrees (put_before c o) (put_before c p)
Agrees-put_before c none none h = tt
Agrees-put_before c none (some p) h = h
Agrees-put_before c (some p) none h = h
Agrees-put_before c (some (x, s)) (some (y, bs)) h = (ap (◌++◌ c) h.0, h.1)

recv_loop_chunk :
    (fuel m b : ℕ) (bs : List ℕ) (s : Socket) (k : ℕ)
    → suc m - suc (length (take m bs)) ≡ k
    → recv_loop (suc fuel) (suc m) ((b ∷ bs) ∷ s)
      ≡ put_before (b ∷ take m bs) (recv_loop fuel k (keep (drop m bs) s))
unfolding recv_loop
recv_loop_chunk fuel m b bs s k e =
    ap (λ k. put_before (b ∷ take m bs) (recv_loop fuel k (keep (drop m bs) s))) e

-- One chunk, by whether it holds all that is missing.
chunk_holds :
    (fuel m b : ℕ) (bs : List ℕ) (s : Socket)
    → m ≤ length bs
    → Agrees
        (recv_loop (suc fuel) (suc m) ((b ∷ bs) ∷ s))
        (take_bytes (suc m) ((b ∷ bs) ++ bytes s))
unfolding recv_loop
chunk_holds fuel m b bs s fits =
    let none_missing : suc m - suc (length (take m bs)) ≡ 0 = omega (arith, length-take m bs) in
    rw
      (
        recv_loop_chunk fuel m b bs s 0 none_missing,
        take_bytes-append_left (suc m) (b ∷ bs) (bytes s) (omega arith),
      )
      (append-nil (b ∷ take m bs), bytes-keep (drop m bs) s)

chunk_taken :
    (fuel m b : ℕ) (bs : List ℕ) (s : Socket)
    → length bs ≤ m
    → Agrees (recv_loop fuel (m - length bs) s) (take_bytes (m - length bs) (bytes s))
    → Agrees
        (recv_loop (suc fuel) (suc m) ((b ∷ bs) ∷ s))
        (take_bytes (suc m) ((b ∷ bs) ++ bytes s))
unfolding recv_loop
chunk_taken fuel m b bs s fits ih =
    let left : suc m - suc (length (take m bs)) ≡ m - length bs = omega (arith, length-take m bs) in
    let total : suc m ≡ length (b ∷ bs) + (m - length bs) = omega arith in
    let split = take_bytes-append_right (m - length bs) (b ∷ bs) (bytes s) in
    let cut : take_bytes (suc m) ((b ∷ bs) ++ bytes s)
        ≡ put_before (b ∷ bs) (take_bytes (m - length bs) (bytes s)) =
      ap (λ k. take_bytes k ((b ∷ bs) ++ bytes s)) total ∙ split in
    rw
      (
        recv_loop_chunk fuel m b bs s (m - length bs) left,
        cut,
        take_all m bs fits,
        drop_all m bs fits,
      )
      (Agrees-put_before (b ∷ bs) (recv_loop fuel (m - length bs) s) _ ih)

recv_loop-Agrees :
    (fuel missing : ℕ) (s : Socket)
    → missing ≤ fuel
    → Agrees (recv_loop fuel missing s) (take_bytes missing (bytes s))
unfolding recv_loop bytes
recv_loop-Agrees fuel zero s fits =
    let none_needed : leb 0 (length (bytes s)) ≡ true = ground arith in
    unfold take_bytes in rw none_needed (refl, refl)
recv_loop-Agrees zero (suc m) s fits = absurd (omega arith)
recv_loop-Agrees (suc fuel) (suc m) [] fits =
    let short : leb (suc m) 0 ≡ false = ground arith in unfold take_bytes in rw short tt
recv_loop-Agrees (suc fuel) (suc m) ([] ∷ s) fits =
    let short : leb (suc m) 0 ≡ false = ground arith in unfold take_bytes in rw short tt
recv_loop-Agrees (suc fuel) (suc m) ((b ∷ bs) ∷ s) fits = elim (Bool-cases (leb m (length bs))) [
  | inl holds ↦ chunk_holds fuel m b bs s (leb→le _ _ holds)
  | inr taken ↦
      let short : length bs ≤ m = ground arith in
      chunk_taken fuel m b bs s short (recv_loop-Agrees fuel (m - length bs) s (omega arith))
]

recv_all-Agrees : (len : ℕ) (s : Socket) → Agrees (recv_all len s) (take_bytes len (bytes s))
unfolding recv_all
recv_all-Agrees len s = recv_loop-Agrees len len s (omega arith)

Agrees-then :
    {A B : Type 0} (next : A → Read B)
    → ((a : A) (s : Socket) → Agrees (read_socket (next a) s) (read_bytes (next a) (bytes s)))
    → (o : Option (A × Socket)) (p : Option (A × List ℕ)) → Agrees o p
    → Agrees
        (elim o [ none ↦ none | some (a, s) ↦ read_socket (next a) s ])
        (elim p [ none ↦ none | some (a, rest) ↦ read_bytes (next a) rest ])
Agrees-then next ih none none h = tt
Agrees-then next ih none (some p) h = absurd h
Agrees-then next ih (some p) none h = absurd h
Agrees-then next ih (some (x, s)) (some (y, bs)) h = rw (← h.0, ← h.1) (ih x s)

-- What a part of the protocol reads, and what it leaves, depends on the bytes that arrive alone, not
-- on the chunks in which they arrive.
pub read_socket-Agrees :
    {A : Type 0} (r : Read A) (s : Socket) → Agrees (read_socket r s) (read_bytes r (bytes s))
unfolding read_socket read_bytes
read_socket-Agrees (done a) s = (refl, refl)
read_socket-Agrees (receive len next) s =
    Agrees-then next (λ got s'. read_socket-Agrees (next got) s') (recv_all len s)
      (take_bytes len (bytes s)) (recv_all-Agrees len s)

-- What is read is taken off the front.
take_bytes-le :
    (len : ℕ) (bs got rest : List ℕ)
    → take_bytes len bs ≡ some (got, rest)
    → length rest + len ≡ length bs
unfolding take_bytes
take_bytes-le len bs got rest e =
    let cut = length-drop len bs in
    elim (Bool-cases (leb len (length bs))) [
      | inl fits ↦ ground (arith, ap (λ (o : Option (List ℕ × List ℕ)). o) e, cut)
      | inr short ↦ absurd (ground (arith, e))
    ]

pub read_bytes-le :
    {A : Type 0} (r : Read A) (bs rest : List ℕ) (a : A)
    → read_bytes r bs ≡ some (a, rest)
    → length rest ≤ length bs
unfolding read_bytes
read_bytes-le (done a') bs rest a e = ground (arith, e)
read_bytes-le (receive len next) bs rest a e = elim (Option-cases (take_bytes len bs)) [
  | inl failed ↦ absurd (ground (arith, e, failed))
  | inr ((got, rest'), taken) ↦
      let here = take_bytes-le len bs got rest' taken in
      let e' : read_bytes (next got) rest' ≡ some (a, rest) = ground (arith, e, taken) in
      omega (arith, here, read_bytes-le (next got) rest' rest a e')
]

pub read_bytes-lt :
    {A : Type 0} (len : ℕ) (next : List ℕ → Read A) (bs rest : List ℕ) (a : A)
    → read_bytes (receive len next) bs ≡ some (a, rest)
    → length rest + len ≤ length bs
unfolding read_bytes
read_bytes-lt len next bs rest a e = elim (Option-cases (take_bytes len bs)) [
  | inl failed ↦ absurd (ground (arith, e, failed))
  | inr ((got, rest'), taken) ↦
      let here = take_bytes-le len bs got rest' taken in
      let e' : read_bytes (next got) rest' ≡ some (a, rest) = ground (arith, e, taken) in
      omega (arith, here, read_bytes-le (next got) rest' rest a e')
]
