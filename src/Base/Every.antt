-- ===== src/Base/Every.antt =====
-- A predicate of every element of a list.
use Prim.Native.Nat.{ℕ, zero, suc}
use mathlib.Core.List.{List, [], ◌∷◌, ◌++◌, reverse, reverse-cons}
use red_box_db.Base.Lists.{drop, get_or, length, length-append, set, take}
use native.Mathlib.Omega.{arith}
use mathlib.Core.Path.{◌≡◌, refl}

module _ {ℓ κ} {A : Type ℓ} (holds : A → Type κ) where
  -- `holds` at each element.
  abbrev pub All : List A → Type κ
  All [] = Unit
  All (a ∷ rest) = holds a × All rest

pub All-mono {ℓ κ μ} :
    {A : Type ℓ} {P : A → Type κ} {Q : A → Type μ} (xs : List A)
    → ((a : A) → P a → Q a)
    → All P xs
    → All Q xs
All-mono [] f h = tt
All-mono (x ∷ xs) f h = (f x h.0, All-mono xs f h.1)

pub All-zip {ℓ κ μ ν} :
    {A : Type ℓ} {P : A → Type κ} {Q : A → Type μ} {R : A → Type ν} (xs : List A)
    → ((a : A) → P a → Q a → R a)
    → All P xs
    → All Q xs
    → All R xs
All-zip [] f h k = tt
All-zip (x ∷ xs) f h k = (f x h.0 k.0, All-zip xs f h.1 k.1)

pub get_or-All {ℓ κ} :
    {A : Type ℓ} (P : A → Type κ) (xs : List A) (i : ℕ) (d : A) → All P xs → P d → P (get_or xs i d)
get_or-All P [] i d h p = p
get_or-All P (x ∷ xs) zero d h p = h.0
get_or-All P (x ∷ xs) (suc i) d h p = get_or-All P xs i d h.1 p

pub set-All {ℓ κ} :
    {A : Type ℓ} (P : A → Type κ) (xs : List A) (i : ℕ) (a : A)
    → All P xs
    → P a
    → All P (set xs i a)
set-All P [] i a h p = tt
set-All P (x ∷ xs) zero a h p = (p, h.1)
set-All P (x ∷ xs) (suc i) a h p = (h.0, set-All P xs i a h.1 p)

pub take-All {ℓ κ} :
    {A : Type ℓ} (P : A → Type κ) (n : ℕ) (xs : List A) → All P xs → All P (take n xs)
take-All P zero xs h = tt
take-All P (suc n) [] h = tt
take-All P (suc n) (x ∷ xs) h = (h.0, take-All P n xs h.1)

pub drop-All {ℓ κ} :
    {A : Type ℓ} (P : A → Type κ) (n : ℕ) (xs : List A) → All P xs → All P (drop n xs)
drop-All P zero xs h = h
drop-All P (suc n) [] h = tt
drop-All P (suc n) (x ∷ xs) h = drop-All P n xs h.1

pub snoc-All {ℓ κ} :
    {A : Type ℓ} (P : A → Type κ) (xs : List A) (a : A) → All P xs → P a → All P (xs ++ a ∷ [])
snoc-All P [] a h p = (p, tt)
snoc-All P (x ∷ xs) a h p = (h.0, snoc-All P xs a h.1 p)

pub reverse-All {ℓ κ} : {A : Type ℓ} (P : A → Type κ) (xs : List A) → All P xs → All P (reverse xs)
reverse-All P [] h = tt
reverse-All P (x ∷ xs) h =
    rw (reverse-cons x xs) (snoc-All P (reverse xs) x (reverse-All P xs h.1) h.0)

-- `related` from each element to each later one.
abbrev pub Pairwise {ℓ κ} : {A : Type ℓ} → (A → A → Type κ) → List A → Type κ
Pairwise related [] = Unit
Pairwise related (a ∷ rest) = All (related a) rest × Pairwise related rest

pub drop-Pairwise {ℓ κ} :
    {A : Type ℓ} (R : A → A → Type κ) (n : ℕ) (xs : List A) → Pairwise R xs → Pairwise R (drop n xs)
drop-Pairwise R zero xs h = h
drop-Pairwise R (suc n) [] h = tt
drop-Pairwise R (suc n) (x ∷ xs) h = drop-Pairwise R n xs h.1

pub snoc-Pairwise {ℓ κ} :
    {A : Type ℓ} (R : A → A → Type κ) (xs : List A) (a : A)
    → Pairwise R xs
    → All (λ x. R x a) xs
    → Pairwise R (xs ++ a ∷ [])
snoc-Pairwise R [] a h k = (tt, tt)
snoc-Pairwise R (x ∷ xs) a h k = (snoc-All (R x) xs a h.0 k.0, snoc-Pairwise R xs a h.1 k.1)

pub reverse-Pairwise {ℓ κ} :
    {A : Type ℓ} (R : A → A → Type κ) (xs : List A)
    → Pairwise R xs
    → Pairwise (λ a b. R b a) (reverse xs)
reverse-Pairwise R [] h = tt
reverse-Pairwise R (x ∷ xs) h = rw (reverse-cons x xs) (
    snoc-Pairwise (λ a b. R b a) (reverse xs) x (reverse-Pairwise R xs h.1)
      (reverse-All (R x) xs h.0))

pub length-reverse {ℓ} : {A : Type ℓ} (xs : List A) → length (reverse xs) ≡ length xs
length-reverse [] = refl
length-reverse (x ∷ xs) =
    rw (reverse-cons x xs) (omega (arith, length-append (reverse xs) (x ∷ []), length-reverse xs))
