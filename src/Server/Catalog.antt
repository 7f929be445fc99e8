-- ===== src/Server/Catalog.antt =====
-- Laws of the catalog of src/server.cpp: lookup by name and by address, and removal.
use red_box_db.Base.Names.{same_name, same_name_iff}
use red_box_db.Base.{
  Bool-cases, List, [], arith, if◌then◌else◌, inl, inr, none, some, ℕ, ◌∷◌, ◌≡◌, ◌≢◌,
}
use red_box_db.Server.{Name, erase_name, find_name, find_pointer}

-- A name is listed once.
abbrev pub AreDistinct : List (Name × ℕ) → Type 0
AreDistinct [] = Unit {0}
AreDistinct ((n, p) ∷ catalog) = (find_name n catalog ≡ none) × AreDistinct catalog

pub find_name-erase_name :
    (m n : Name) (catalog : List (Name × ℕ))
    → find_name n (erase_name m catalog) ≡ (if same_name m n then none else find_name n catalog)
unfolding find_name erase_name
find_name-erase_name m n [] = ground arith
find_name-erase_name m n ((k, p) ∷ catalog) = ground (
  arith,
  find_name-erase_name m n catalog,
  same_name_iff m n,
  same_name_iff k m,
  same_name_iff k n,
)

pub erase_name-AreDistinct :
    (m : Name) (catalog : List (Name × ℕ))
    → AreDistinct catalog
    → AreDistinct (erase_name m catalog)
unfolding erase_name
erase_name-AreDistinct m [] h = tt
erase_name-AreDistinct m ((k, p) ∷ catalog) h = elim (Bool-cases (same_name k m)) [
  | inl same ↦ rw same (erase_name-AreDistinct m catalog h.1)
  | inr other ↦
      rw other (
        ground (arith, find_name-erase_name m k catalog, h.0),
        erase_name-AreDistinct m catalog h.1,
      )
]

pub find_pointer-find_name :
    (p : ℕ) (n : Name) (catalog : List (Name × ℕ))
    → AreDistinct catalog
    → find_pointer p catalog ≡ some n
    → find_name n catalog ≡ some p
unfolding find_pointer find_name
find_pointer-find_name p n [] h e = cc
find_pointer-find_name p n ((k, q) ∷ catalog) h e =
    ground (arith, find_pointer-find_name p n catalog, same_name_iff k n, h.0)

pub find_pointer-none :
    (p : ℕ) (n : Name) (catalog : List (Name × ℕ))
    → find_pointer p catalog ≡ none
    → find_name n catalog ≢ some p
unfolding find_pointer find_name
find_pointer-none p n [] h e = cc
find_pointer-none p n ((k, q) ∷ catalog) h e = ground (arith, find_pointer-none p n catalog)
