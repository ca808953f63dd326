-- ===== src/Queries/OrderRows.antt =====
-- The statements on `orders`.
use doorbust.Base.{
  ℕ, Bool, true, false, not, String, Option, none, some, List, [], ◌∷◌, ◌++◌, ◌&&◌, ltb, ◌==◌,
  str_eq, if◌then◌else◌, find, update_first, sum,
}
use doorbust.Store.{
  Customer, Db, Order, Status, pending, awaiting_payment, completed, failed, cancelled, is_pending,
  is_awaiting_payment, Result, ok, err, no_rows, unique_violation, foreign_key_violation,
}
use doorbust.Queries.Turns.{Query, Turn}

-- SELECT o.*, c.email, c.cognito_sub: an order with the identity of its owner.
pub record OwnedOrder : Type 0 where
  pub order : Order
  pub open order use *
  pub customer_email : String
  pub customer_cognito_sub : Option String

abbrev pub has_intent : String → Order → Bool
has_intent intent o = elim o.stripe_payment_intent_id [ none ↦ false | some i ↦ str_eq i intent ]

abbrev pub owned : Order → Customer → OwnedOrder
owned o c = record { order = o; customer_email = c.email; customer_cognito_sub = c.cognito_sub }

-- JOIN customers c ON c.id = o.customer_id
abbrev pub join_owner : Db → Order → Option Customer → Result OwnedOrder × Db
join_owner db o none = (err no_rows, db)
join_owner db o (some c) = (ok (owned o c), db)

abbrev pub join_customer : Db → Option Order → Result OwnedOrder × Db
join_customer db none = (err no_rows, db)
join_customer db (some o) = join_owner db o (find (λ c. c.id == o.customer_id) db.customers)

abbrev found_order : Db → Option Order → Result Order × Db
found_order db none = (err no_rows, db)
found_order db (some o) = (ok o, db)

unfoldable pub find_order_by_id : ℕ → Query OwnedOrder
find_order_by_id id turn db = join_customer db (find (λ o. o.id == id) db.orders)

unfoldable pub find_order_by_payment_intent_id : String → Query OwnedOrder
find_order_by_payment_intent_id intent turn db =
    join_customer db (find (has_intent intent) db.orders)

unfoldable pub find_order_by_id_plain : ℕ → Query Order
find_order_by_id_plain id turn db = found_order db (find (λ o. o.id == id) db.orders)

pub record CreateOrderParams : Type 0 where
  pub customer_id : ℕ
  pub product_id : ℕ
  pub total_in_cents : ℕ
  pub expires_at : Option ℕ

-- The row of an INSERT: the other columns take their defaults.
abbrev pub new_order : CreateOrderParams → Turn → Order
new_order p turn = record {
  id = turn.nextval;
  customer_id = p.customer_id;
  product_id = p.product_id;
  status = pending;
  created_at = turn.now;
  total_in_cents = p.total_in_cents;
  expires_at = p.expires_at;
  stripe_payment_intent_id = none;
}

abbrev pub is_found {ℓ} : {A : Type ℓ} → Option A → Bool
is_found none = false
is_found (some _) = true

-- PRIMARY KEY (id), and the references to customers and products.
unfoldable pub create_order : CreateOrderParams → Query Order
create_order p turn db =
    if is_found (find (λ o. o.id == turn.nextval) db.orders)
    then (err unique_violation, db)
    else if not (
        is_found (find (λ c. c.id == p.customer_id) db.customers)
        && is_found (find (λ x. x.id == p.product_id) db.products))
    then (err foreign_key_violation, db)
    else (ok (new_order p turn), record db { orders = db.orders ++ new_order p turn ∷ [] })

-- The answer of a guarded UPDATE.
abbrev pub returning_order : Db → Option (Order × List Order) → Result Order × Db
returning_order db none = (err no_rows, db)
returning_order db (some (o, rows)) = (ok o, record db { orders = rows })

abbrev pub is_pending_order : ℕ → Order → Bool
is_pending_order id o = o.id == id && is_pending o.status

abbrev pub is_awaiting_order : ℕ → Order → Bool
is_awaiting_order id o = o.id == id && is_awaiting_payment o.status

abbrev pub with_status : Status → Order → Order
with_status s o = record o { status = s }

pub record MarkOrderAwaitingPaymentParams : Type 0 where
  pub id : ℕ
  pub stripe_payment_intent_id : String
  pub expires_at : ℕ

abbrev pub with_intent : MarkOrderAwaitingPaymentParams → Order → Order
with_intent p o = record o {
  status = awaiting_payment;
  stripe_payment_intent_id = some p.stripe_payment_intent_id;
  expires_at = some p.expires_at;
}

abbrev pub intent_count : String → Order → ℕ
intent_count intent o = if has_intent intent o then 1 else 0

-- stripe_payment_intent_id is UNIQUE.
unfoldable pub returning_unique_intent :
    String → Db → Option (Order × List Order) → Result Order × Db
returning_unique_intent intent db none = (err no_rows, db)
returning_unique_intent intent db (some (o, rows)) =
    if ltb 1 (sum (intent_count intent) rows)
    then (err unique_violation, db)
    else (ok o, record db { orders = rows })

unfoldable pub mark_order_awaiting_payment : MarkOrderAwaitingPaymentParams → Query Order
unfolding returning_unique_intent
mark_order_awaiting_payment p turn db =
    returning_unique_intent p.stripe_payment_intent_id db
      (update_first (is_pending_order p.id) (with_intent p) db.orders)

unfoldable pub complete_order : ℕ → Query Order
complete_order id turn db =
    returning_order db (update_first (is_awaiting_order id) (with_status completed) db.orders)

unfoldable pub cancel_pending_order : ℕ → Query Order
cancel_pending_order id turn db =
    returning_order db (update_first (is_pending_order id) (with_status cancelled) db.orders)

unfoldable pub fail_order : ℕ → Query Order
fail_order id turn db =
    returning_order db (update_first (is_awaiting_order id) (with_status failed) db.orders)
