-- ===== src/Server/Received.antt =====
-- What src/server.cpp knows of a command that it has read: the name is valid, numbers are of the bits
-- that they are sent in, and vectors have the dimension of the active database.
use red_box_db.Base.{
  All, Bool, Bool-cases, List, Option-cases, [], ap, arith, drop, drop-All, false, get_or, if_elim,
  if◌then◌else◌, inl, inr, leb, leb→le, length, length-take, ltb, refl, some, subst, suc, take,
  take-All, true, zero, ℕ, ◌<◌, ◌==◌, ◌∷◌, ◌≡◌,
}
use red_box_db.Server.{Bits, Name, is_valid_db_name, max_db_name_len}
use red_box_db.Server.Wire.{Read, done, le_value, receive}
use red_box_db.Server.Wire.Chunks.{read_bytes, take_bytes}
use red_box_db.Server.Receive.{
  Action, Active, Command, absent, act, create_hnsw_db, db_info, delete_id, drop_db, floats, freed,
  hang_up, insert_auto_vec, insert_vec, list_dbs, open_dim, read_active, read_command,
  read_create_hnsw, read_name, read_request, read_select, read_vec, reject_name, search_n_vec,
  search_vec, select_db, set_hnsw_ef, set_probes, unknown_cmd, update_vec, use_freed,
}
use red_box_db.Server.Framing.{Word}

abbrev pub IsByte : ℕ → Type 0
IsByte b = b < 256

-- P holds of all that can be read.
abbrev pub Yields : {A : Type 0} → (A → Type 0) → Read A → Type 0
Yields P (done a) = P a
Yields P (receive len next) = (bs : List ℕ) → length bs ≡ len → All IsByte bs → Yields P (next bs)

abbrev pub IsAction : {F : Type 0} → ℕ → Action F → Type 0
IsAction dim (insert_vec id vec) = length vec ≡ dim
IsAction dim (search_vec query) = length query ≡ dim
IsAction dim (delete_id id) = Unit {0}
IsAction dim (update_vec id vec) = length vec ≡ dim
IsAction dim (insert_auto_vec vec) = length vec ≡ dim
IsAction dim (search_n_vec n query) = length query ≡ dim
IsAction dim (set_probes n) = Unit {0}
IsAction dim (set_hnsw_ef ef) = Unit {0}
IsAction dim list_dbs = Unit {0}
IsAction dim db_info = Unit {0}
IsAction dim unknown_cmd = Unit {0}

-- The numbers of an action are of the 32 bits that they are sent in.
abbrev pub AreWords : {F : Type 0} → Action F → Type 0
AreWords (insert_vec id vec) = Word id
AreWords (search_vec query) = Unit {0}
AreWords (delete_id id) = Word id
AreWords (update_vec id vec) = Word id
AreWords (insert_auto_vec vec) = Unit {0}
AreWords (search_n_vec n query) = Word n
AreWords (set_probes n) = Word n
AreWords (set_hnsw_ef ef) = Word ef
AreWords list_dbs = Unit {0}
AreWords db_info = Unit {0}
AreWords unknown_cmd = Unit {0}

abbrev pub IsCommand : {F : Type 0} → Active → Command F → Type 0
IsCommand active reject_name = Unit {0}
IsCommand active hang_up = Unit {0}
IsCommand active use_freed = active ≡ freed
IsCommand active (select_db name dim cap) = (is_valid_db_name name ≡ true) × Word dim × Word cap
IsCommand active (create_hnsw_db name dim cap m ef) =
    (is_valid_db_name name ≡ true) × Word dim × Word cap × (m < 256) × (ef < 65536)
IsCommand active drop_db = (dim : ℕ) × (active ≡ open_dim dim)
IsCommand active (act a) = (dim : ℕ) × (active ≡ open_dim dim) × IsAction dim a × AreWords a

-- A field of four bytes is a word.
le_value-Word : (bs : List ℕ) → length bs ≡ 4 → All IsByte bs → Word (le_value bs)
unfolding le_value
le_value-Word [] e h = absurd (omega arith)
le_value-Word (a ∷ []) e h = absurd (omega arith)
le_value-Word (a ∷ b ∷ []) e h = absurd (omega arith)
le_value-Word (a ∷ b ∷ c ∷ []) e h = absurd (omega arith)
le_value-Word (a ∷ b ∷ c ∷ d ∷ []) e h = omega arith
le_value-Word (a ∷ b ∷ c ∷ d ∷ x ∷ xs) e h = absurd (omega arith)

le_value-one : (bs : List ℕ) → length bs ≡ 1 → All IsByte bs → le_value bs < 256
unfolding le_value
le_value-one [] e h = absurd (omega arith)
le_value-one (a ∷ []) e h = omega arith
le_value-one (a ∷ b ∷ xs) e h = absurd (omega arith)

le_value-two : (bs : List ℕ) → length bs ≡ 2 → All IsByte bs → le_value bs < 65536
unfolding le_value
le_value-two [] e h = absurd (omega arith)
le_value-two (a ∷ []) e h = absurd (omega arith)
le_value-two (a ∷ b ∷ []) e h = omega arith
le_value-two (a ∷ b ∷ c ∷ xs) e h = absurd (omega arith)

-- The number of a header, which follows the code of the command.
le_value-header : (bs : List ℕ) → length bs ≡ 5 → All IsByte bs → Word (le_value (drop 1 bs))
le_value-header [] e h = absurd (omega arith)
le_value-header (a ∷ bs) e h = le_value-Word bs (omega (arith, e)) h.1

take_bytes-All :
    (len : ℕ) (bs got rest : List ℕ)
    → take_bytes len bs ≡ some (got, rest)
    → All IsByte bs
    → (length got ≡ len) × All IsByte got × All IsByte rest
unfolding take_bytes
take_bytes-All len bs got rest e h = elim (Bool-cases (leb len (length bs))) [
  | inl fits ↦
      let first : take len bs ≡ got = ground (arith, e) in
      let second : drop len bs ≡ rest = ground (arith, e) in
      rw (← first, ← second)
        (
          omega (arith, length-take len bs, leb→le _ _ fits),
          take-All IsByte len bs h,
          drop-All IsByte len bs h,
        )
  | inr short ↦ absurd (ground (arith, e))
]

-- What is read has the property.
pub read_bytes-Yields :
    {A : Type 0} (P : A → Type 0) (r : Read A) (bs rest : List ℕ) (a : A)
    → Yields P r
    → All IsByte bs
    → read_bytes r bs ≡ some (a, rest)
    → P a
unfolding read_bytes
read_bytes-Yields P (done a') bs rest a y h e =
    let same : a' ≡ a = ground (arith, e) in subst P same y
read_bytes-Yields P (receive len next) bs rest a y h e = elim (Option-cases (take_bytes len bs)) [
  | inl failed ↦ absurd (ground (arith, e, failed))
  | inr ((got, rest'), taken) ↦
      let (l, g, r) = take_bytes-All len bs got rest' taken h in
      let e' : read_bytes (next got) rest' ≡ some (a, rest) = ground (arith, e, taken) in
      read_bytes-Yields P (next got) rest' rest a (y got l g) r e'
]

module _ (F : Type 0) where
  read_name-Yields :
      (active : Active) (name_len : ℕ) (next : Name → Read (Command F))
      → ((n : Name) → is_valid_db_name n ≡ true → Yields (IsCommand active) (next n))
      → Yields (IsCommand active) (read_name name_len next)
  unfolding read_name
  read_name-Yields active name_len next h =
      if_elim (Yields (IsCommand active)) (ltb max_db_name_len name_len) _ _ (λ long. tt)
        (λ short bs e b.
          if_elim (Yields (IsCommand active)) (is_valid_db_name bs) _ _ (h bs) (λ bad. tt))

  read_select-Yields :
      (active : Active) (meta : ℕ) → Yields (IsCommand active) (read_select {F = F} meta)
  unfolding read_select
  read_select-Yields active meta =
      read_name-Yields active meta _
        λ n valid d dl db c cl cb. (valid, le_value-Word d dl db, le_value-Word c cl cb)

  read_create_hnsw-Yields :
      (active : Active) (meta : ℕ) → Yields (IsCommand active) (read_create_hnsw {F = F} meta)
  unfolding read_create_hnsw
  read_create_hnsw-Yields active meta =
      read_name-Yields active meta _ λ n valid d dl db c cl cb m ml mb ef el eb. (
        valid,
        le_value-Word d dl db,
        le_value-Word c cl cb,
        le_value-one m ml mb,
        le_value-two ef el eb,
      )

length-floats :
    (F : Type 0) ⦃bits : Bits F⦄ (count : ℕ) (bs : List ℕ)
    → length {A = F} (floats count bs) ≡ count
unfolding floats
length-floats F zero bs = refl
length-floats F (suc count) bs = ap suc (length-floats F count (drop 4 bs))

module _ {F : Type 0} ⦃bits : Bits F⦄ where
  read_vec-Yields :
      (dim : ℕ) (next : List F → Action F)
      → ((vec : List F) → length vec ≡ dim → IsAction dim (next vec) × AreWords (next vec))
      → Yields (IsCommand (open_dim dim)) (read_vec dim next)
  unfolding read_vec
  read_vec-Yields dim next h =
      if_elim (Yields (IsCommand (open_dim dim))) (leb 2147483648 dim) _ _ (λ big. tt)
        (λ fits bs e b.
          let (sized, words) = h (floats dim bs) (length-floats F dim bs) in
          (dim, refl, sized, words))

  -- One of the tests on the command code.
  case_Yields :
      (active : Active) (b : Bool) (x y : Read (Command F))
      → Yields (IsCommand active) x
      → Yields (IsCommand active) y
      → Yields (IsCommand active) (if b then x else y)
  case_Yields active true x y h k = h
  case_Yields active false x y h k = k

module _ (F : Type 0) ⦃bits : Bits F⦄ where
  read_active-Yields :
      (dim cmd meta : ℕ)
      → Word meta
      → Yields (IsCommand {F = F} (open_dim dim)) (read_active dim cmd meta)
  unfolding read_active
  read_active-Yields dim cmd meta w =
      let a = open_dim dim in
      case_Yields a (cmd == 1) _ _ (read_vec-Yields dim (insert_vec meta) λ v e. (e, w)) (
        case_Yields a (cmd == 2) _ _ (read_vec-Yields dim search_vec λ v e. (e, tt)) (
          case_Yields a (cmd == 3) _ _ (dim, refl, tt, w)
            (case_Yields a (cmd == 5) _ _ (read_vec-Yields dim (update_vec meta) λ v e. (e, w)) (
              case_Yields a (cmd == 6) _ _ (read_vec-Yields dim insert_auto_vec λ v e. (e, tt)) (
                case_Yields a (cmd == 7) _ _ (read_vec-Yields dim (search_n_vec meta) λ v e. (e, w))
                  (case_Yields a (cmd == 8) _ _ (dim, refl)
                    (case_Yields a (cmd == 9) _ _ (dim, refl, tt, w)
                      (case_Yields a (cmd == 11) _ _ (dim, refl, tt, w)
                        (case_Yields a (cmd == 12) _ _ (dim, refl, tt, tt)
                          (case_Yields a (cmd == 13) _ _ (dim, refl, tt, tt)
                            (dim, refl, tt, tt)))))))))))

  read_other-Yields :
      (active : Active) (cmd meta : ℕ)
      → Word meta
      → Yields (IsCommand {F = F} active) (elim active [
        | absent ↦ done hang_up
        | freed ↦ done use_freed
        | open_dim dim ↦ read_active dim cmd meta
      ])
  read_other-Yields absent cmd meta w = tt
  read_other-Yields freed cmd meta w = refl
  read_other-Yields (open_dim dim) cmd meta w = read_active-Yields dim cmd meta w

  read_request-Yields : (active : Active) → Yields (IsCommand {F = F} active) (read_request active)
  unfolding read_request read_command
  read_request-Yields active bs e b =
      let cmd = get_or bs 0 0 in
      let meta = le_value (drop 1 bs) in
      case_Yields active (cmd == 4) _ _ (read_select-Yields F active meta) (
        case_Yields active (cmd == 10) _ _ (read_create_hnsw-Yields F active meta)
          (read_other-Yields active cmd meta (le_value-header bs e b)))

  -- Of a stream of bytes, only commands are read whose name is valid, whose dimension and capacity,
  -- or whose id, number of neighbours, of probes or search width, are below 2^32, whose M is below
  -- 2^8 and whose construction width is below 2^16, and whose vectors have the dimension of the
  -- active database; and none that needs an active database where there is none.
  pub read_request-IsCommand :
      (active : Active) (bs rest : List ℕ) (command : Command F)
      → All IsByte bs
      → read_bytes (read_request active) bs ≡ some (command, rest)
      → IsCommand active command
  read_request-IsCommand active bs rest command h e =
      read_bytes-Yields (IsCommand active) (read_request active) bs rest command
        (read_request-Yields active) h e
