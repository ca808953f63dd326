-- ===== src/Ledger/StockEffects.antt =====
-- What the statements on `stock` do to the accounts of a product.
use doorbust.Base.{
  ℕ, ◌+◌, ◌-◌, ◌≤◌, ◌≡◌, refl, Bool, true, Option, none, some, List, inl, inr, Bool-cases, leb,
  arith, update_first, update_first-Replaces, Replaces, sum, has_key, sum-has_key-update_first,
  if◌then◌else◌, ap,
}
use doorbust.Store.{Db, Stock}
use doorbust.Queries.StockRows.{
  reserve_stock, commit_stock, release_stock, returning_stock, has_unit, has_reservation,
  reserve_one, commit_one, release_one,
}
use doorbust.Ledger.{
  Account, watched_rows, Drift, reserved_of, quantity_of, flaw_of, missing, flaws, unit,
}
use doorbust.Ledger.Effects.{Effect, Moves}

-- What an UPDATE of `stock` adds to a row's columns.
pub record Updates (p : Account) (t : Stock → Bool) (f : Stock → Stock) (x y u v : ℕ) : Type 0 where
  pub same : (s : Stock) → (f s).product_id ≡ s.product_id
  pub reserves :
      (s : Stock) → t s ≡ true → reserved_of p.product (f s) + x ≡ reserved_of p.product s + y
  pub supplies :
      (s : Stock)
      → t s ≡ true
      → s.num_reserved - s.quantity ≡ 0
      → quantity_of p.product (f s) + u ≡ quantity_of p.product s + v

le_of_fits : (a b : ℕ) → leb a b ≡ true → a ≤ b
le_of_fits a b h = ground arith

same_rows :
    (p : Account) (xs ys : List Stock)
    → sum (has_key (λ s. s.product_id) p.product) xs
      ≡ sum (has_key (λ s. s.product_id) p.product) ys
    → watched_rows p xs ≡ watched_rows p ys
unfolding watched_rows
same_rows p xs ys h = ap (λ (n : ℕ). if p.watched then n else 0) h

module _ (p : Account) {t : Stock → Bool} {f : Stock → Stock} {x y u v : ℕ}
    (row : Updates p t f x y u v) where
  updated_stock :
      (db : Db) (s : Stock) (rows : List Stock)
      → flaws db ≡ 0
      → leb s.num_reserved s.quantity ≡ true
      → Replaces t f db.stock s rows
      → sum (has_key (λ s. s.product_id) p.product) rows
        ≡ sum (has_key (λ s. s.product_id) p.product) db.stock
      → Drift p db (record db { stock = rows }) x y u v
  updated_stock db s rows sound fits (old, hit, new, weigh, member) kept = record {
    balance = omega (
      arith,
      weigh (reserved_of p.product),
      row.reserves old hit,
      ap (reserved_of p.product) new,
    );
    supply = omega (
      arith,
      weigh (quantity_of p.product),
      row.supplies old hit (omega (arith, member (flaw_of db.products))),
      ap (quantity_of p.product) new,
    );
    listed = same_rows p rows db.stock kept;
    sound = omega (
      arith,
      weigh (flaw_of db.products),
      member (flaw_of db.products),
      ap (missing db.products) (ap (λ r. r.product_id) new),
      ap (missing db.products) (row.same old),
      le_of_fits s.num_reserved s.quantity fits,
    );
  }

  returned_stock :
      (db : Db) (r : Option (Stock × List Stock))
      → flaws db ≡ 0
      → update_first t f db.stock ≡ r
      → Effect p db (λ _. x) (λ _. y) (λ _. u) (λ _. v) (returning_stock db r)
  returned_stock db none sound e = refl
  returned_stock db (some (s, rows)) sound e = elim (Bool-cases (leb s.num_reserved s.quantity)) [
    | inl fits ↦ rw fits (
        updated_stock db s rows sound fits (update_first-Replaces t f db.stock s rows e)
          (sum-has_key-update_first t f (λ s. s.product_id) row.same p.product db.stock s rows e))
    | inr full ↦ rw full refl
  ]

module _ (p : Account) (q : ℕ) where
  reserves_one : Updates p (has_unit q) reserve_one 0 (unit p q) 0 0
  reserves_one = record {
    same = λ s. refl;
    reserves = λ s h. ground arith;
    supplies = λ s h c. ground arith;
  }

  commits_one : Updates p (has_reservation q) commit_one (unit p q) 0 (unit p q) 0
  commits_one = record {
    same = λ s. refl;
    reserves = λ s h. ground arith;
    supplies = λ s h c. ground arith;
  }

  releases_one : Updates p (has_reservation q) release_one (unit p q) 0 0 0
  releases_one = record {
    same = λ s. refl;
    reserves = λ s h. ground arith;
    supplies = λ s h c. ground arith;
  }

  pub reserve_stock-Moves : Moves p (reserve_stock q) (λ _. 0) (λ _. unit p q) (λ _. 0) (λ _. 0)
  unfolding reserve_stock
  reserve_stock-Moves = record {
    on = λ turn db sound. returned_stock p reserves_one db _ sound refl;
  }

  pub commit_stock-Moves :
      Moves p (commit_stock q) (λ _. unit p q) (λ _. 0) (λ _. unit p q) (λ _. 0)
  unfolding commit_stock
  commit_stock-Moves = record { on = λ turn db sound. returned_stock p commits_one db _ sound refl }

  pub release_stock-Moves : Moves p (release_stock q) (λ _. unit p q) (λ _. 0) (λ _. 0) (λ _. 0)
  unfolding release_stock
  release_stock-Moves = record {
    on = λ turn db sound. returned_stock p releases_one db _ sound refl;
  }
