-- ===== src/Orders/Remembered.antt =====
-- CUSTOMER_CACHE with an arm that resolves the caller inside its transaction: what is remembered of a
-- customer whose row has been rolled back.
use text.Mathlib.TextPositions.{eq_refl}
use doorbust.Base.{
  ℕ, ◌==◌, false, ◌≡◌, refl, none, some, find, update_first, List, ◌∷◌, [], ◌++◌, str_eq,
  if◌then◌else◌,
}
use doorbust.Store.{Db, Stock, Product, ok, err, no_rows, out_of_stock, foreign_key_violation}
use doorbust.Queries.StockRows.{reserve_stock, has_unit, reserve_one}
use doorbust.Queries.OrderRows.{create_order}
use doorbust.Queries.ProductRows.{find_product_by_id}
use doorbust.Queries.CustomerRows.{
  find_customer_by_sub, link_customer, is_sub, has_email, new_customer,
}
use doorbust.Session.{
  World, tx, call, in_transaction, ◌>>=◌, attempt, pure, fail, load_id, store_id,
}
use doorbust.Session.Calm.{calm, calm_turn, idle}
use doorbust.Auth.{Claims}
use doorbust.Customers.{
  cached_resolve, after_load, direct_resolve, link, link_loop, link_once, after_try, by_sub,
  by_email,
}
use doorbust.Orders.Arms.{reserve-ok}
use doorbust.Orders.Strategies.{
  ReserveParams, reserve, or_out_of_stock, create, reserve_and_create, txn_reserve,
}

-- A buyer who has no row yet.
pub record IsNew (claims : Claims) (now nextval : ℕ) (db : Db) : Type 0 where
  pub subject : str_eq claims.subject "" ≡ false
  pub no_sub : find (is_sub (some claims.subject)) db.customers ≡ none
  pub no_email : find (has_email claims.email) db.customers ≡ none
  pub no_id : find (λ c. c.id == nextval) db.customers ≡ none

module _ (claims : Claims) (now nextval : ℕ) (db : Db) (new : IsNew claims now nextval db) where
  abbrev joined : Db
  joined = record db {
    customers =
        db.customers
        ++ new_customer claims.email (some claims.subject) (calm_turn now nextval) ∷ [];
  }

  -- In a transaction that has just been opened.
  abbrev opening : World
  opening = record { shared = db; view = db; aborted = false; at = 1; ids = λ _. none }

  found_none :
      find_customer_by_sub (some claims.subject) (calm_turn now nextval) db ≡ (err no_rows, db)
  unfolding find_customer_by_sub
  found_none = rw new.no_sub refl

  link_row-new :
      link_customer claims.email (some claims.subject) (calm_turn now nextval) db
      ≡ (ok (new_customer claims.email (some claims.subject) (calm_turn now nextval)), joined)
  unfolding link_customer
  link_row-new = rw new.no_email (rw new.no_sub (rw new.no_id refl))

  link_run : link tx claims (calm now nextval) opening ≡ (
    ok (new_customer claims.email (some claims.subject) (calm_turn now nextval)),
    record opening { view = joined; at = 3 },
  )
  unfolding link link_loop link_once after_try by_sub by_email call ◌>>=◌ attempt pure
  link_run = rw new.subject (rw found_none (rw new.subject (rw link_row-new refl)))

  -- The id is remembered although the transaction has not been committed.
  resolve_run : cached_resolve tx claims (calm now nextval) opening ≡ (
    ok nextval,
    record opening {
      view = joined;
      at = 3;
      ids = λ s. if str_eq s claims.subject then some nextval else none;
    },
  )
  unfolding cached_resolve after_load direct_resolve load_id store_id ◌>>=◌ pure
  resolve_run = rw new.subject (rw link_run refl)

-- A unit of the product can be had, but there is no customer with this id.
pub record IsDangling (p : ReserveParams) (id nextval : ℕ) (db : Db) : Type 0 where
  pub product : Product
  pub stock : Stock
  pub unit : Stock × List Stock
  pub found : find (λ z. z.id == p.product_id) db.products ≡ some product
  pub stocked : find (λ z. z.product_id == product.id) db.stock ≡ some stock
  pub free : update_first (has_unit p.product_id) reserve_one db.stock ≡ some unit
  pub no_customer : find (λ c. c.id == id) db.customers ≡ none
  pub fresh : find (λ o. o.id == nextval) db.orders ≡ none

module _ (p : ReserveParams) (now nextval id : ℕ)
    (subject : str_eq p.claims.subject "" ≡ false) where
  dangling_run :
      (w : World)
      → IsDangling p id nextval w.shared
      → w.ids p.claims.subject ≡ some id
      → (txn_reserve cached_resolve false p (calm now nextval) w).0 ≡ err foreign_key_violation
  unfolding txn_reserve cached_resolve after_load load_id find_product_by_id reserve or_out_of_stock
      create create_order reserve_and_create call in_transaction ◌>>=◌ attempt pure fail
  dangling_run w d known = rw subject (
      rw known (
        rw d.found (
          rw d.stocked (
            rw (reserve-ok p (calm_turn now nextval) w.shared d.unit.0 d.unit.1 d.free)
              (rw d.fresh (rw d.no_customer refl))))))

module _ (p : ReserveParams) (now nextval : ℕ) (db : Db) (x : Product) (s : Stock)
    (new : IsNew p.claims now nextval db)
    (found : find (λ z. z.id == p.product_id) db.products ≡ some x)
    (stock : find (λ z. z.product_id == x.id) db.stock ≡ some s)
    (none_free : update_first (has_unit p.product_id) reserve_one db.stock ≡ none) where
  refused_run :
      let w = (txn_reserve cached_resolve false p (calm now nextval) (idle db)).1 in
      ((txn_reserve cached_resolve false p (calm now nextval) (idle db)).0 ≡ err out_of_stock)
      × (w.shared ≡ db)
      × (w.ids p.claims.subject ≡ some nextval)
  unfolding txn_reserve find_product_by_id reserve reserve_stock or_out_of_stock reserve_and_create
      call in_transaction ◌>>=◌ attempt pure fail
  refused_run =
      rw (resolve_run p.claims now nextval db new)
        (rw found (rw stock (rw none_free (refl, refl, rw (eq_refl p.claims.subject) refl))))

  -- With the cache of customers on, a new buyer whose first reservation fails for want of stock cannot
  -- reserve any more: the transaction takes back the customer, the cache keeps the id. Whatever has
  -- been committed later, as long as no customer has got that id, the next reservation of a unit that
  -- is free ends in a violated foreign key. This is of the baseline arm, where nothing else happens.
  pub cached_resolve-dangling :
      (later : Db) (now' nextval' : ℕ)
      → IsDangling p nextval nextval' later
      → let reserve = txn_reserve cached_resolve false p in
        ((reserve (calm now nextval) (idle db)).0 ≡ err out_of_stock)
        × ((reserve
              (calm now' nextval')
              (record (reserve (calm now nextval) (idle db)).1 { shared = later })).0
            ≡ err foreign_key_violation)
  cached_resolve-dangling later now' nextval' d = (
    refused_run.0,
    dangling_run p now' nextval' nextval new.subject
        (record (txn_reserve cached_resolve false p (calm now nextval) (idle db)).1 {
          shared = later;
        })
        d refused_run.2,
  )
