-- ===== src/Ledger/ProductEffects.antt =====
-- A new product leaves the rows of stock that have a product with one.
use doorbust.Base.{
  ℕ, ◌≤◌, ◌==◌, ◌≡◌, refl, List, [], ◌∷◌, ◌++◌, find, sum, Bool-cases, inl, inr, arith,
}
use doorbust.Store.{Product, Stock}
use doorbust.Queries.OrderRows.{is_found}
use doorbust.Queries.Inserted.{find-append-kept}
use doorbust.Ledger.{flaw_of, missing}

missing-le : (ps : List Product) (p : Product) (k : ℕ) → missing (ps ++ p ∷ []) k ≤ missing ps k
missing-le ps p k = elim (Bool-cases (is_found (find (λ x. x.id == k) ps))) [
  | inl e ↦ rw e (rw (find-append-kept (λ x. x.id == k) ps p e) (omega arith))
  | inr e ↦ rw e (ground arith)
]

pub flaws-kept :
    (ps : List Product) (p : Product) (xs : List Stock)
    → sum (flaw_of ps) xs ≡ 0
    → sum (flaw_of (ps ++ p ∷ [])) xs ≡ 0
unfolding sum
flaws-kept ps p [] h = refl
flaws-kept ps p (x ∷ xs) h =
    let rest = flaws-kept ps p xs (omega arith) in omega (arith, missing-le ps p x.product_id)
