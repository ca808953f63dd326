-- ===== src/Bench/Inventory/Sound.antt =====
-- The checks pass after every history of requests.
use doorbust.Base.{
  ℕ, ◌+◌, ◌≤◌, Bool, true, false, ◌==◌, ◌&&◌, ◌||◌, ◌≡◌, refl, ◌∙◌, ap, Option, none, some, List,
  [], ◌∷◌, ◌++◌, find, find-IsRow, length, sum, repeats, has_key, All, Bool-cases, inl, inr, ==→eq,
  arith, if◌then◌else◌,
}
use doorbust.Store.{
  Db, Order, Stock, Status, pending, awaiting_payment, completed, failed, expired, cancelled,
  unrecognized, is_live, is_completed, Result, ok,
}
use doorbust.Session.{World, call, pure, attempt, ◌>>=◌}
use doorbust.Session.Calm.{calm}
use doorbust.Ledger.{rows, sold, sold_of, live, live_of, flaw_of, IsBalanced}
use doorbust.Bench.Report.{InvariantCheck, Invariants}
use doorbust.Bench.Inventory.{
  count_orders, select_stock, is_live_of, is_kept_of, count_live, count_kept, order_count_fits,
  check_product, check_products, product_checks, all_hold, check, check_orders,
}

-- What the checks of one product ask for.
pub record IsInOrder (initial id : ℕ) (db : Db) : Type 0 where
  pub row : Stock
  pub found : find (λ s. s.product_id == id) db.stock ≡ some row
  pub within : row.num_reserved ≤ row.quantity
  pub matched : sum (is_live_of id) db.orders ≡ row.num_reserved
  pub bounded : sum (is_kept_of id) db.orders ≤ initial

all_hold-append :
    (xs ys : List InvariantCheck)
    → all_hold xs ≡ true
    → all_hold ys ≡ true
    → all_hold (xs ++ ys) ≡ true
all_hold-append [] ys hx hy = hy
all_hold-append (x ∷ xs) ys hx hy = ground (arith, all_hold-append xs ys)

-- Checks that all hold, from a run that changes nothing.
pub record Passes (w : World) (r : Result (List InvariantCheck) × World) : Type 0 where
  pub checks : List InvariantCheck
  pub answer : r.0 ≡ ok checks
  pub holds : all_hold checks ≡ true
  pub same : r.1.shared ≡ w.shared

module _ (now nextval initial : ℕ) where
  check_product-Passes :
      (id : ℕ) (w : World)
      → IsInOrder initial id w.shared
      → Passes w (check_product initial id (calm now nextval) w)
  unfolding check_product select_stock count_live count_kept call ◌>>=◌ attempt pure
  check_product-Passes id w d = rw d.found (record {
    checks =
        product_checks initial d.row (sum (is_live_of id) w.shared.orders)
          (ok (sum (is_kept_of id) w.shared.orders));
    answer = refl;
    holds = ground arith;
    same = refl;
  })

  check_products-Passes :
      (ids : List ℕ) (w : World)
      → All (λ id. IsInOrder initial id w.shared) ids
      → Passes w (check_products initial ids (calm now nextval) w)
  unfolding check_products ◌>>=◌ pure
  check_products-Passes [] w a = record { checks = []; answer = refl; holds = refl; same = refl }
  check_products-Passes (id ∷ ids) w a =
      let first = check_product-Passes id w a.0 in
      let w' = (check_product initial id (calm now nextval) w).1 in
      let rest = check_products-Passes ids w' (rw first.same a.1) in
      rw first.answer (
        rw rest.answer (record {
          checks = first.checks ++ rest.checks;
          answer = refl;
          holds = all_hold-append first.checks rest.checks first.holds rest.holds;
          same = rest.same ∙ first.same;
        }))

  -- With an order count that fits what the client has seen.
  pub check-passed :
      (ids : List ℕ) (client_reserved client_unknown : ℕ) (w : World)
      → All (λ id. IsInOrder initial id w.shared) ids
      → order_count_fits client_reserved client_unknown (length w.shared.orders) ≡ true
      → (i : Invariants) × ((check ids initial client_reserved client_unknown
            (calm now nextval)
            w).0
          ≡ ok i)
        × (i.passed ≡ true)
  unfolding check count_orders call ◌>>=◌ attempt pure
  check-passed ids client_reserved client_unknown w a fits =
      let w' : World = record w { at = w.at + 1 } in
      let rest = check_products-Passes ids w' a in
      let checks : List InvariantCheck =
        check_orders client_reserved client_unknown (ok (length w.shared.orders)) ∷ rest.checks in
      rw rest.answer
        (record { passed = all_hold checks; checks = checks }, refl, rw fits rest.holds)

-- A figure of the rows of a product.
abbrev pub of_product : (Stock → ℕ) → ℕ → Stock → ℕ
of_product f p s = if s.product_id == p then f s else 0

-- The key of the table: one row for each product.
other_rows :
    (f : Stock → ℕ) (p : ℕ) (xs : List Stock)
    → sum (has_key (λ s. s.product_id) p) xs ≡ 0
    → sum (of_product f p) xs ≡ 0
unfolding sum
other_rows f p [] h = refl
other_rows f p (x ∷ xs) h = ground (arith, other_rows f p xs)

abbrev figure : (Stock → ℕ) → Option Stock → ℕ
figure f none = 0
figure f (some s) = f s

pub one_row :
    (f : Stock → ℕ) (p : ℕ) (xs : List Stock) (s : Stock)
    → repeats (λ s. s.product_id) xs ≡ 0
    → find (λ s. s.product_id == p) xs ≡ some s
    → sum (of_product f p) xs ≡ f s
unfolding sum repeats
one_row f p [] s distinct found = cc
one_row f p (x ∷ xs) s distinct found = elim (Bool-cases (x.product_id == p)) [
  | inl e ↦
      let same = ==→eq x.product_id p e in
      let first : some x ≡ some s = rw e at found in
      let none_else : sum (has_key (λ s. s.product_id) x.product_id) xs ≡ 0 = omega arith in
      let rest = other_rows f p xs (rw same at none_else) in
      let equal = ap (λ (o : Option Stock). figure f o) first in rw e (omega arith)
  | inr e ↦ let rest = one_row f p xs s (omega arith) (rw e at found) in rw e (omega arith)
]

abbrev HasRow : ℕ → List Stock → Type 0
HasRow p xs = (s : Stock) × (find (λ s. s.product_id == p) xs ≡ some s)

HasRow-later :
    (p : ℕ) (x : Stock) (xs : List Stock)
    → (x.product_id == p) ≡ false
    → HasRow p xs
    → HasRow p (x ∷ xs)
HasRow-later p x xs e (s, found) = (s, rw e found)

-- A product with one row of stock has it, and the figure of its rows is that row's.
pub one_row-found :
    (p : ℕ) (xs : List Stock) → sum (has_key (λ s. s.product_id) p) xs ≡ 1 → HasRow p xs
unfolding sum
one_row-found p [] h = cc
one_row-found p (x ∷ xs) h = elim (Bool-cases (x.product_id == p)) [
  | inl e ↦ (x, rw e refl)
  | inr e ↦ let h' = rw e at h in HasRow-later p x xs e (one_row-found p xs (omega arith))
]

only_row :
    (f : Stock → ℕ) (p : ℕ) (xs : List Stock) (s : Stock)
    → sum (has_key (λ s. s.product_id) p) xs ≡ 1
    → find (λ s. s.product_id == p) xs ≡ some s
    → sum (of_product f p) xs ≡ f s
unfolding sum
only_row f p [] s one found = cc
only_row f p (x ∷ xs) s one found = elim (Bool-cases (x.product_id == p)) [
  | inl e ↦
      let first : some x ≡ some s = rw e at found in
      let one' = rw e at one in
      let rest = other_rows f p xs (omega arith) in
      let equal = ap (λ (o : Option Stock). figure f o) first in rw e (omega arith)
  | inr e ↦
      let one' = rw e at one in
      let rest = only_row f p xs s (omega arith) (rw e at found) in rw e (omega arith)
]

kept_status :
    (b : Bool) (s : Status)
    → (if b && is_completed s then 1 else 0) + (if b && is_live s then 1 else 0)
      ≡ (if b && (is_live s || is_completed s) then 1 else 0)
kept_status false s = omega arith
kept_status true pending = omega arith
kept_status true awaiting_payment = omega arith
kept_status true completed = omega arith
kept_status true failed = omega arith
kept_status true expired = omega arith
kept_status true cancelled = omega arith
kept_status true (unrecognized s) = omega arith

kept-sold :
    (p : ℕ) (os : List Order) → sum (sold_of p) os + sum (live_of p) os ≡ sum (is_kept_of p) os
unfolding sum
kept-sold p [] = refl
kept-sold p (o ∷ os) = omega (arith, kept_status (o.product_id == p) o.status, kept-sold p os)

-- Books in order, and no more units than there were at the start.
pub IsBalanced-IsInOrder :
    (p initial : ℕ) (db : Db) (s : Stock)
    → IsBalanced p db
    → rows p db ≡ 1
    → find (λ s. s.product_id == p) db.stock ≡ some s
    → sold p db + live p db ≤ initial
    → IsInOrder initial p db
IsBalanced-IsInOrder p initial db s balanced one found most =
    let row = only_row (λ s. s.num_reserved) p db.stock s one found in
    let flaw = find-IsRow (λ s. s.product_id == p) db.stock s found (flaw_of db.products) in
    record {
      row = s;
      found = found;
      within = omega (arith, balanced.sound);
      matched = omega (arith, balanced.matched);
      bounded = omega (arith, kept-sold p db.orders);
    }
