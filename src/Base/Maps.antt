-- ===== src/Base/Maps.antt =====
-- A raw block of memory, or a hash map, read as a function of its index, and a set of ids.
use Prim.Native.Nat.{ℕ, suc}
use mathlib.Core.Path.{◌≡◌, refl}
use mathlib.Core.Bool.{Bool, true, false, ◌||◌}
use mathlib.Core.List.{List, [], ◌∷◌, ◌++◌}
use native.Mathlib.Omega.{arith}
use red_box_db.Base.Tests.{if◌then◌else◌, ◌==◌}

-- `block[i] = v`
abbrev pub update_map {ℓ} : {A : Type ℓ} → (ℕ → A) → ℕ → A → ℕ → A
update_map f i v j = if i == j then v else f j

-- How often an element occurs.
unfoldable pub times : List ℕ → ℕ → ℕ
times [] a = 0
times (x ∷ xs) a = if x == a then suc (times xs a) else times xs a

-- `set.count(a) != 0`
unfoldable pub contains : List ℕ → ℕ → Bool
contains [] a = false
contains (x ∷ xs) a = x == a || contains xs a

-- `set.insert(a)`
unfoldable pub insert_id : ℕ → List ℕ → List ℕ
unfolding contains
insert_id a xs = if contains xs a then xs else a ∷ xs

-- `set.erase(a)`
unfoldable pub erase_id : ℕ → List ℕ → List ℕ
erase_id a [] = []
erase_id a (x ∷ xs) = if x == a then erase_id a xs else x ∷ erase_id a xs

pub contains-insert_id :
    (a b : ℕ) (xs : List ℕ) → contains (insert_id a xs) b ≡ (if a == b then true else contains xs b)
unfolding insert_id
contains-insert_id a b xs = ground arith

pub contains-erase_id :
    (a b : ℕ) (xs : List ℕ) → contains (erase_id a xs) b ≡ (if a == b then false else contains xs b)
unfolding contains erase_id
contains-erase_id a b [] = ground arith
contains-erase_id a b (x ∷ xs) = ground (arith, contains-erase_id a b xs)

pub contains-append :
    (xs ys : List ℕ) (a : ℕ) → contains (xs ++ ys) a ≡ (contains xs a || contains ys a)
unfolding contains
contains-append [] ys a = refl
contains-append (x ∷ xs) ys a = ground (arith, contains-append xs ys a)

-- Every element once.
abbrev pub IsDistinct : List ℕ → Type 0
IsDistinct [] = Unit {0}
IsDistinct (x ∷ xs) = (contains xs x ≡ false) × IsDistinct xs

pub insert_id-IsDistinct : (a : ℕ) (xs : List ℕ) → IsDistinct xs → IsDistinct (insert_id a xs)
unfolding insert_id
insert_id-IsDistinct a xs h = ground arith

pub erase_id-IsDistinct : (a : ℕ) (xs : List ℕ) → IsDistinct xs → IsDistinct (erase_id a xs)
unfolding erase_id
erase_id-IsDistinct a [] h = tt
erase_id-IsDistinct a (x ∷ xs) h =
    ground (arith, erase_id-IsDistinct a xs, contains-erase_id a x xs)
