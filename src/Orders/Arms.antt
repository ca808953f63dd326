-- ===== src/Orders/Arms.antt =====
-- The three arms of internal/orders/strategy*.go are one reservation, written in three ways.
use doorbust.Base.{
  String, ℕ, ◌==◌, Bool, true, false, ◌≡◌, refl, ◌∙◌, Option, none, some, find, find-some, ap,
  ==→eq, update_first, List, ◌∷◌, [], ◌++◌, arith, update_first-Replaces,
}
use doorbust.Store.{Db, Order, Stock, Product, Customer, Result, ok, err, no_rows, out_of_stock}
use doorbust.Queries.Turns.{Turn}
use doorbust.Queries.StockRows.{reserve_stock, returning_stock, has_unit, reserve_one}
use doorbust.Queries.OrderRows.{create_order, new_order, CreateOrderParams}
use doorbust.Queries.ProductRows.{stocked, find_product_by_id}
use doorbust.Queries.Reservation.{
  reserve_and_create_order, after_reserve, insert_priced, undo_on_error,
}
use doorbust.Session.{World, M, call, commit, in_transaction, ◌>>=◌, attempt, pure, fail}
use doorbust.Session.Calm.{calm, calm_turn}
use doorbust.Customers.{Resolver}
use doorbust.Orders.ByName.{strategy_by_name-all}
use doorbust.Orders.Strategies.{
  Strategy, strategy_by_name, ReserveParams, or_out_of_stock, reserve, create, reserve_and_create,
  txn_reserve, after_statement, cte_reserve,
}

-- A resolver that knows the caller already.
abbrev pub known : ℕ → Resolver
known customer_id q claims = pure customer_id

abbrev pub order_params : ReserveParams → ℕ → Product → CreateOrderParams
order_params p customer_id x = record {
  customer_id = customer_id;
  product_id = p.product_id;
  total_in_cents = x.price_in_cents;
  expires_at = some p.expires_at;
}

-- What a reservation is to do: nothing where no unit is free, or one unit more that is reserved and a
-- pending order for it at the product's price.
abbrev pub placed :
    ReserveParams → ℕ → Turn → Db → Product → Option (Stock × List Stock) → Result Order × Db
placed p customer_id turn db x none = (err out_of_stock, db)
placed p customer_id turn db x (some (s, rows)) = (
  ok (new_order (order_params p customer_id x) turn),
  record db {
    stock = rows;
    orders = db.orders ++ new_order (order_params p customer_id x) turn ∷ [];
  },
)

-- What the strategy answers, and what it leaves committed.
abbrev pub Answers : ℕ → ℕ → World → M Order → Result Order × Db → Type 0
Answers now nextval w m r =
    ((m (calm now nextval) w).0 ≡ r.0) × ((m (calm now nextval) w).1.shared ≡ r.1)

module _ (params : ReserveParams) where
  returning-ok :
      (db : Db) (s : Stock) (rows : List Stock)
      → update_first (has_unit params.product_id) reserve_one db.stock ≡ some (s, rows)
      → returning_stock db (update_first (has_unit params.product_id) reserve_one db.stock)
        ≡ (ok s, record db { stock = rows })
  returning-ok db s rows e =
      let (x, hit, new, weigh, member) =
        update_first-Replaces (has_unit params.product_id) reserve_one db.stock s rows e in
      rw e (ground (arith, hit, new))

  pub reserve-ok :
      (turn : Turn) (db : Db) (s : Stock) (rows : List Stock)
      → update_first (has_unit params.product_id) reserve_one db.stock ≡ some (s, rows)
      → reserve_stock params.product_id turn db ≡ (ok s, record db { stock = rows })
  unfolding reserve_stock
  reserve-ok turn db s rows e = returning-ok db s rows e

  reserve-none :
      (turn : Turn) (db : Db)
      → update_first (has_unit params.product_id) reserve_one db.stock ≡ none
      → reserve_stock params.product_id turn db ≡ (err no_rows, db)
  unfolding reserve_stock
  reserve-none turn db e = rw e refl

module _ (params : ReserveParams) (c : Customer) (now nextval : ℕ) (db : Db)
    (owner : find (λ z. z.id == c.id) db.customers ≡ some c)
    (fresh : find (λ o. o.id == nextval) db.orders ≡ none) where
  -- stock may have changed, the other tables have not
  create-ok :
      (x : Product) (rows : List Stock)
      → find (λ z. z.id == params.product_id) db.products ≡ some x
      → create_order
          (order_params params c.id x)
          (calm_turn now nextval)
          (record db { stock = rows })
        ≡ (
          ok (new_order (order_params params c.id x) (calm_turn now nextval)),
          record db {
            stock = rows;
            orders =
                db.orders ++ new_order (order_params params c.id x) (calm_turn now nextval) ∷ [];
          },
        )
  unfolding create_order
  create-ok x rows found = rw fresh (rw owner (rw found refl))

  product-ok :
      (x : Product) (s : Stock)
      → find (λ z. z.id == params.product_id) db.products ≡ some x
      → find (λ z. z.product_id == x.id) db.stock ≡ some s
      → find_product_by_id params.product_id (calm_turn now nextval) db ≡ (ok (stocked x s), db)
  unfolding find_product_by_id
  product-ok x s found stock = rw found (rw stock refl)

  product-none :
      find (λ z. z.id == params.product_id) db.products ≡ none
      → find_product_by_id params.product_id (calm_turn now nextval) db ≡ (err no_rows, db)
  unfolding find_product_by_id
  product-none found = rw found refl

  module _ (x : Product) (s : Stock)
      (found : find (λ z. z.id == params.product_id) db.products ≡ some x)
      (stock : find (λ z. z.product_id == x.id) db.stock ≡ some s) (w : World)
      (same : w.shared ≡ db) where
    abbrev turn : Turn
    turn = calm_turn now nextval

    -- with a row of stock that has a unit free, and without
    txn_reserve-some :
        (b : Bool) (r : Stock × List Stock)
        → update_first (has_unit params.product_id) reserve_one db.stock ≡ some r
        → Answers now nextval w
            (txn_reserve (known c.id) b params)
            (placed params c.id turn db x (some r))
    unfolding txn_reserve reserve_and_create reserve create or_out_of_stock in_transaction call
        commit ◌>>=◌ attempt pure
    txn_reserve-some false (y, rows) e = rw same (
        rw (product-ok x s found stock)
          (rw (reserve-ok params turn db y rows e) (rw (create-ok x rows found) (refl, refl))))
    txn_reserve-some true (y, rows) e = rw same (
        rw (product-ok x s found stock) (
          rw (create-ok x db.stock found) (
            rw
              (reserve-ok params turn
                (record db {
                  orders = db.orders ++ new_order (order_params params c.id x) turn ∷ [];
                })
                y rows e)
              (refl, refl))))

    txn_reserve-none :
        (b : Bool)
        → update_first (has_unit params.product_id) reserve_one db.stock ≡ none
        → Answers now nextval w (txn_reserve (known c.id) b params) (err out_of_stock, db)
    unfolding txn_reserve reserve_and_create reserve create or_out_of_stock in_transaction call
        commit ◌>>=◌ attempt pure fail
    txn_reserve-none false e =
        rw same (rw (product-ok x s found stock) (rw (reserve-none params turn db e) (refl, refl)))
    txn_reserve-none true e = rw same (
        rw (product-ok x s found stock) (
          rw (create-ok x db.stock found) (
            rw
              (reserve-none params turn
                (record db {
                  orders = db.orders ++ new_order (order_params params c.id x) turn ∷ [];
                })
                e)
              (refl, refl))))

    cte_reserve-none :
        update_first (has_unit params.product_id) reserve_one db.stock ≡ none
        → Answers now nextval w (cte_reserve (known c.id) params) (err out_of_stock, db)
    unfolding cte_reserve after_statement reserve_and_create_order after_reserve call ◌>>=◌ attempt
        pure fail
    cte_reserve-none e = rw same (rw e (rw (product-ok x s found stock) (refl, refl)))

    statement-some :
        (y : Stock) (rows : List Stock)
        → update_first (has_unit params.product_id) reserve_one db.stock ≡ some (y, rows)
        → reserve_and_create_order
            (record {
              customer_id = c.id;
              product_id = params.product_id;
              expires_at = some params.expires_at;
            })
            turn
            db
          ≡ placed params c.id turn db x (some (y, rows))
    unfolding reserve_and_create_order after_reserve insert_priced undo_on_error
    statement-some y rows e =
        let (z, hit, new, weigh, member) =
          update_first-Replaces (has_unit params.product_id) reserve_one db.stock y rows e in
        let row : y.product_id ≡ params.product_id =
          ap (λ (s : Stock). s.product_id) new
          ∙ ==→eq z.product_id params.product_id (ground arith) in
        let id : x.id ≡ params.product_id =
          ==→eq x.id params.product_id
            (find-some (λ z. z.id == params.product_id) db.products x found) in
        rw (returning-ok params db y rows e)
          (rw row (rw found (rw id (rw (create-ok x rows found) refl))))

    cte_reserve-some :
        (r : Stock × List Stock)
        → update_first (has_unit params.product_id) reserve_one db.stock ≡ some r
        → Answers now nextval w
            (cte_reserve (known c.id) params)
            (placed params c.id turn db x (some r))
    unfolding cte_reserve after_statement call ◌>>=◌ attempt pure
    cte_reserve-some (y, rows) e = rw same (rw (statement-some y rows e) (refl, refl))

    arm_places :
        (r : Option (Stock × List Stock))
        → update_first (has_unit params.product_id) reserve_one db.stock ≡ r
        → (name : String) (arm : Strategy) → strategy_by_name name (known c.id) ≡ some arm
        → Answers now nextval w (arm params) (placed params c.id turn db x r)
    arm_places none e =
        strategy_by_name-all (λ arm. Answers now nextval w (arm params) (err out_of_stock, db))
          (known c.id) (txn_reserve-none false e) (txn_reserve-none true e) (cte_reserve-none e)
    arm_places (some r) e =
        strategy_by_name-all
          (λ arm. Answers now nextval w (arm params) (placed params c.id turn db x (some r)))
          (known c.id) (txn_reserve-some false r e) (txn_reserve-some true r e)
          (cte_reserve-some r e)

    pub strategy_by_name-placed :
        (name : String) (arm : Strategy)
        → strategy_by_name name (known c.id) ≡ some arm
        → Answers now nextval w (arm params) (
            placed params c.id turn db x
              (update_first (has_unit params.product_id) reserve_one db.stock))
    strategy_by_name-placed = arm_places _ refl
