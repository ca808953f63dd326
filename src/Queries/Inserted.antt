-- ===== src/Queries/Inserted.antt =====
-- What is found in a table after an INSERT.
use doorbust.Base.{Bool, true, List, [], ◌∷◌, ◌++◌, ◌≡◌, refl, find, Bool-cases, inl, inr, arith}
use doorbust.Queries.OrderRows.{is_found}

pub find-append-kept :
    {A : Type 0} (t : A → Bool) (xs : List A) (x : A)
    → is_found (find t xs) ≡ true
    → is_found (find t (xs ++ x ∷ [])) ≡ true
find-append-kept t [] x h = cc
find-append-kept t (y ∷ ys) x h = elim (Bool-cases (t y)) [
  | inl e ↦ rw e refl
  | inr e ↦ rw e (find-append-kept t ys x (ground arith))
]

pub find-append-last :
    {A : Type 0} (t : A → Bool) (xs : List A) (x : A)
    → t x ≡ true
    → is_found (find t (xs ++ x ∷ [])) ≡ true
find-append-last t [] x h = rw h refl
find-append-last t (y ∷ ys) x h = elim (Bool-cases (t y)) [
  | inl e ↦ rw e refl
  | inr e ↦ rw e (find-append-last t ys x h)
]
