-- ===== src/Orders/Sweeper/Count.antt =====
-- How many orders hold a unit, through the statements of a sweep.
use doorbust.Base.{
  ℕ, ◌+◌, ◌≤◌, ◌≡◌, refl, true, leb, Option, none, some, List, [], ◌∷◌, length, sum, repeats,
  has_key, All, All-weaken, All-IsRow, arith, update_first, Bool-cases, inl, inr, if◌then◌else◌,
}
use doorbust.Store.{Db, Order, Stock, is_live, Result, ok, err}
use doorbust.Queries.Turns.{Turn}
use doorbust.Queries.StockRows.{release_stock, returning_stock, has_reservation, release_one}
use doorbust.Queries.Expiry.{id_in, expire_rows, expire_orders, picked_orders}
use doorbust.Ledger.ExpiryEffects.{id_in-live, picked_orders-IsHolding}

abbrev pub live_weight : Order → ℕ
live_weight o = if is_live o.status then 1 else 0

-- How many orders hold a unit.
abbrev pub all_live : Db → ℕ
all_live db = sum live_weight db.orders

abbrev pub shared_ids : Db → ℕ
shared_ids db = repeats (λ o. o.id) db.orders

-- No two orders share an id, and k of n live orders are gone.
pub record Counted (n k : ℕ) (db : Db) : Type 0 where
  pub distinct : shared_ids db ≡ 0
  pub count : all_live db + k ≤ n

module _ (picked : List Order) where
  expire_rows-count :
      (os : List Order)
      → All (λ o. id_in picked o.id ≡ true → is_live o.status ≡ true) os
      → let (returned, rows) = expire_rows picked os in
        (sum live_weight os ≡ sum live_weight rows + length returned)
        × ((k : ℕ) → sum (has_key (λ r. r.id) k) rows ≡ sum (has_key (λ r. r.id) k) os)
        × (repeats (λ r. r.id) rows ≡ repeats (λ r. r.id) os)
  unfolding expire_rows sum repeats
  expire_rows-count [] a = (refl, λ k. refl, refl)
  expire_rows-count (o ∷ os) a =
      let (l, k, r) = expire_rows-count os a.1 in
      elim (Bool-cases (id_in picked o.id)) [
        | inl hit ↦
            let held = a.0 hit in
            rw hit (ground arith, λ j. ground (arith, k j), ground (arith, k o.id))
        | inr miss ↦ rw miss (ground arith, λ j. ground (arith, k j), ground (arith, k o.id))
      ]

-- What a statement in a transaction does to the count, by its answer.
abbrev pub Counts : {A : Type 0} → ℕ → (A → ℕ) → Result A × Db → Type 0
Counts n f (ok a, db) = Counted n (f a) db
Counts n f (err _, db) = Unit

pub expire_orders-Counts :
    (n limit : ℕ) (t : Turn) (db : Db)
    → Counted n 0 db
    → Counts n (λ (os : List Order). length os) (expire_orders limit t db)
unfolding expire_orders
expire_orders-Counts n limit t db h =
    let picked = picked_orders limit t db.orders in
    let (l, k, r) = expire_rows-count picked db.orders (
      All-weaken _
        (λ o row hit.
          id_in-live db.orders picked o h.distinct (picked_orders-IsHolding limit t db.orders) row
            hit)
        (All-IsRow db.orders)) in
    record { distinct = omega (arith, h.distinct); count = omega (arith, h.count) }

returning_stock-Counts :
    (n k : ℕ) (db : Db) (r : Option (Stock × List Stock))
    → Counted n k db
    → Counts n (λ _. k) (returning_stock db r)
returning_stock-Counts n k db none h = tt
returning_stock-Counts n k db (some (s, rows)) h =
    elim (Bool-cases (leb s.num_reserved s.quantity)) [
      | inl e ↦ rw e (record { distinct = h.distinct; count = h.count })
      | inr e ↦ rw e tt
    ]

pub release_stock-Counts :
    (n k q : ℕ) (t : Turn) (db : Db) → Counted n k db → Counts n (λ _. k) (release_stock q t db)
unfolding release_stock
release_stock-Counts n k q t db h =
    returning_stock-Counts n k db (update_first (has_reservation q) release_one db.stock) h
