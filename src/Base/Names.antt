-- ===== src/Base/Names.antt =====
-- Equality of names (`std::string` as a key), by their bytes.
use red_box_db.Base.{Bool, List, [], arith, false, refl, subst, true, ℕ, ◌&&◌, ◌==◌, ◌↔◌, ◌∷◌, ◌≡◌}

unfoldable pub same_name : List ℕ → List ℕ → Bool
same_name [] [] = true
same_name [] (c ∷ cs) = false
same_name (c ∷ cs) [] = false
same_name (c ∷ cs) (d ∷ ds) = c == d && same_name cs ds

pub same_name_refl : (n : List ℕ) → same_name n n ≡ true
unfolding same_name
same_name_refl [] = refl
same_name_refl (c ∷ cs) = ground (arith, same_name_refl cs)

pub same_name-eq : (m n : List ℕ) → same_name m n ≡ true → m ≡ n
unfolding same_name
same_name-eq [] [] h = refl
same_name-eq [] (d ∷ ds) h = cc
same_name-eq (c ∷ cs) [] h = cc
same_name-eq (c ∷ cs) (d ∷ ds) h = ground (arith, same_name-eq cs ds)

pub same_name_iff : (m n : List ℕ) → (same_name m n ≡ true) ↔ (m ≡ n)
same_name_iff m n = (same_name-eq m n, λ e. subst (λ k. same_name m k ≡ true) e (same_name_refl m))
