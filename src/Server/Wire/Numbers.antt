-- ===== src/Server/Wire/Numbers.antt =====
-- Little-endian integers of the protocol of src/server.cpp, written and read back.
use red_box_db.Base.{
  List, ap, arith, drop-append_left, drop_all, leb, length, length-append, refl, some, suc, sym,
  take-append_left, take_all, true, zero, ℕ, ◌++◌, ◌/◌, ◌<◌, ◌≡◌,
}
use red_box_db.Server.Wire.{Read, le, le_value, receive}
use red_box_db.Server.Wire.Chunks.{read_bytes, take_bytes}

pub length-le : (k x : ℕ) → length (le k x) ≡ k
unfolding le
length-le zero x = refl
length-le (suc k) x = ap suc (length-le k (x / 256))

-- A number of k bytes, by recursion.
abbrev pub Fits : ℕ → ℕ → Type 0
Fits zero x = x ≡ 0
Fits (suc k) x = Fits k (x / 256)

pub le_value-le : (k x : ℕ) → Fits k x → le_value (le k x) ≡ x
unfolding le le_value
le_value-le zero x h = sym h
le_value-le (suc k) x h = omega (arith, le_value-le k (x / 256) h)

pub Fits-1 : (x : ℕ) → x < 256 → Fits 1 x
Fits-1 x h = omega arith

pub Fits-2 : (x : ℕ) → x < 65536 → Fits 2 x
Fits-2 x h = omega arith

pub Fits-4 : (x : ℕ) → x < 4294967296 → Fits 4 x
Fits-4 x h = omega arith

-- What is read of a whole field, with what follows it.
pub take_bytes-append :
    (len : ℕ) (xs rest : List ℕ) → length xs ≡ len → take_bytes len (xs ++ rest) ≡ some (xs, rest)
unfolding take_bytes
take_bytes-append len xs rest e =
    let fits : leb len (length (xs ++ rest)) ≡ true = ground (arith, length-append xs rest) in
    rw
      (
        fits,
        take-append_left len xs rest (omega arith),
        drop-append_left len xs rest (omega arith),
        take_all len xs (omega arith),
        drop_all len xs (omega arith),
      )
      refl

pub read_bytes-receive :
    {A : Type 0} (len : ℕ) (next : List ℕ → Read A) (xs rest : List ℕ)
    → length xs ≡ len
    → read_bytes (receive len next) (xs ++ rest) ≡ read_bytes (next xs) rest
unfolding read_bytes
read_bytes-receive len next xs rest e = rw (read_bytes, take_bytes-append len xs rest e) refl
