-- ===== src/Queries/Reservation.antt =====
-- ReserveAndCreateOrder: the reservation and the order as one statement.
use doorbust.Base.{ℕ, Option, none, some, ◌==◌, find, update_first}
use doorbust.Store.{Db, Product, Stock, Order, Result, ok, err, no_rows}
use doorbust.Queries.Turns.{Query, Turn}
use doorbust.Queries.StockRows.{returning_stock, has_unit, reserve_one}
use doorbust.Queries.OrderRows.{CreateOrderParams, create_order}

pub record ReserveAndCreateOrderParams : Type 0 where
  pub customer_id : ℕ
  pub product_id : ℕ
  pub expires_at : Option ℕ

abbrev pub priced_order : ReserveAndCreateOrderParams → Product → CreateOrderParams
priced_order p x = record {
  customer_id = p.customer_id;
  product_id = x.id;
  total_in_cents = x.price_in_cents;
  expires_at = p.expires_at;
}

-- A statement that fails leaves nothing of what its parts have written.
unfoldable pub undo_on_error : Db → Result Order × Db → Result Order × Db
undo_on_error db (ok o, db') = (ok o, db')
undo_on_error db (err e, db') = (err e, db)

-- INSERT … SELECT … FROM priced: no product, no row.
unfoldable pub insert_priced :
    ReserveAndCreateOrderParams → Turn → Db → Db → Option Product → Result Order × Db
unfolding undo_on_error create_order
insert_priced p turn db db' none = (err no_rows, db')
insert_priced p turn db db' (some x) = undo_on_error db (create_order (priced_order p x) turn db')

-- The part `reserved` comes first, since `priced` reads it.
unfoldable pub after_reserve :
    ReserveAndCreateOrderParams → Turn → Db → Result Stock × Db → Result Order × Db
unfolding insert_priced
after_reserve p turn db (err e, db') = (err e, db)
after_reserve p turn db (ok s, db') =
    insert_priced p turn db db' (find (λ x. x.id == s.product_id) db'.products)

unfoldable pub reserve_and_create_order : ReserveAndCreateOrderParams → Query Order
unfolding after_reserve
reserve_and_create_order p turn db =
    after_reserve p turn db
      (returning_stock db (update_first (has_unit p.product_id) reserve_one db.stock))
