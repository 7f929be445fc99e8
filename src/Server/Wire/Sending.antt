-- ===== src/Server/Wire/Sending.antt =====
-- What `send_all` of src/server.cpp lets out.
use red_box_db.Base.{
  Bool, List, [], ap, drop, false, refl, subst, suc, sym, take, take-append-drop, true, zero, ℕ,
  ◌++◌, ◌∙◌, ◌∷◌, ◌≡◌,
}
use red_box_db.Server.Wire.{Sent, interrupted, send_all, send_failed, sent}
use mathlib.Core.List.{append_assoc}

-- The first of the bytes went out, and if the answer is true then all of them.
abbrev IsPart : List ℕ → List ℕ × Bool → Type 0
IsPart bs (out, whole) = (left : List ℕ) × (bs ≡ out ++ left) × (whole ≡ true → left ≡ [])

whole-IsPart : (c bs : List ℕ) (r : List ℕ × Bool) → IsPart bs r → IsPart (c ++ bs) (c ++ r.0, r.1)
whole-IsPart c bs (out, whole) (left, e, h) =
    (left, ap (λ x. c ++ x) e ∙ sym (append_assoc c out left), h)

nothing-IsPart : (bs : List ℕ) → IsPart bs ([], false)
nothing-IsPart bs = (bs, refl, λ e. cc)

-- Whatever the calls report, what goes out is the first part of the bytes, in their order; if the
-- answer is true it is all of them.
send_all-IsPart : (bs : List ℕ) (reports : List Sent) → IsPart bs (send_all bs reports)
unfolding send_all
send_all-IsPart [] reports = ([], refl, λ e. refl)
send_all-IsPart (b ∷ bs) [] = nothing-IsPart (b ∷ bs)
send_all-IsPart (b ∷ bs) (interrupted ∷ reports) = send_all-IsPart (b ∷ bs) reports
send_all-IsPart (b ∷ bs) (send_failed ∷ reports) = nothing-IsPart (b ∷ bs)
send_all-IsPart (b ∷ bs) (sent zero ∷ reports) = nothing-IsPart (b ∷ bs)
send_all-IsPart (b ∷ bs) (sent (suc n) ∷ reports) =
    subst (λ x. IsPart x (send_all (b ∷ bs) (sent (suc n) ∷ reports)))
      (take-append-drop (suc n) (b ∷ bs))
      (whole-IsPart (take (suc n) (b ∷ bs)) (drop (suc n) (b ∷ bs))
        (send_all (drop (suc n) (b ∷ bs)) reports)
        (send_all-IsPart (drop (suc n) (b ∷ bs)) reports))
