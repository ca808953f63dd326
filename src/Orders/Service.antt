-- ===== src/Orders/Service.antt =====
-- internal/orders/service.go and status.go.
use doorbust.Base.{
  ℕ, ◌+◌, String, Bool, not, Option, none, some, List, [], ◌∷◌, ◌&&◌, str_eq, if◌then◌else◌, length,
}
use doorbust.Store.{
  Order, completed, is_pending, Result, ok, err, no_rows, order_not_pending, forbidden,
  paid_but_not_fulfillable, gateway_failed,
}
use doorbust.Session.{
  M, pure, fail, lift, attempt, ◌>>=◌, ◌>>◌, pool, tx, call, commit, in_transaction, time_now,
}
use doorbust.Queries.StockRows.{commit_stock, release_stock}
use doorbust.Queries.OrderRows.{
  OwnedOrder, find_order_by_id, find_order_by_payment_intent_id, mark_order_awaiting_payment,
  complete_order, cancel_pending_order, fail_order,
}
use doorbust.Queries.Expiry.{expire_orders}
use doorbust.Queries.Pages.{ListedOrder, list_orders_by_customer}
use doorbust.Customers.{link}
use doorbust.Auth.{Claims}
use doorbust.Orders.Strategies.{Strategy}

-- Does the caller own the order? By subject where both have one, else by email.
unfoldable pub owns : Option String → String → Claims → Bool
owns none email claims = not (str_eq email "") && str_eq email claims.email
owns (some sub) email claims =
    if str_eq claims.subject ""
    then not (str_eq email "") && str_eq email claims.email
    else str_eq sub claims.subject

unfoldable pub check_owner : OwnedOrder → Claims → M (Unit {0})
check_owner o claims =
    if owns o.customer_cognito_sub o.customer_email claims then pure tt else fail forbidden

unfoldable pub get_order : ℕ → Claims → M OwnedOrder
get_order id claims = do
  order ← call pool (find_order_by_id id)
  check_owner order claims
  pure order

-- The caller is linked first, so that one who has never ordered gets an empty list.
unfoldable pub list_orders : Claims → ℕ → ℕ → M (List ListedOrder)
list_orders claims limit offset = do
  customer ← link pool claims
  call pool (list_orders_by_customer customer.id limit offset)

pub record CreateOrderParams : Type 0 where
  pub product_id : ℕ
  pub claims : Claims
  pub idempotency_key : String

-- The reservation's end is stamped here, from one reading of the clock, for every arm.
unfoldable pub create_order : Strategy → ℕ → CreateOrderParams → M Order
create_order reserve reservation_ttl p = do
  now ← time_now
  reserve (record {
    product_id = p.product_id;
    claims = p.claims;
    expires_at = now + reservation_ttl;
    idempotency_key = p.idempotency_key;
  })

pub record PaymentIntentParams : Type 0 where
  pub order_id : ℕ
  pub amount_in_cents : ℕ
  pub customer_email : String

pub record PaymentIntent : Type 0 where
  pub id : String
  pub client_secret : String

-- The interface PaymentGateway: the processor answers, or refuses.
abbrev pub PaymentGateway : Type 0
PaymentGateway = PaymentIntentParams → Option PaymentIntent

pub record CheckoutResult : Type 0 where
  pub order : Order
  pub payment_intent_id : String
  pub client_secret : String

unfoldable pub or_gateway_failed : Option PaymentIntent → M PaymentIntent
or_gateway_failed none = fail gateway_failed
or_gateway_failed (some intent) = pure intent

unfoldable pub or_not_pending : Result Order → M Order
or_not_pending (ok order) = pure order
or_not_pending (err no_rows) = fail order_not_pending
or_not_pending (err e) = fail e

-- No transaction is open while the processor is asked.
unfoldable pub checkout : PaymentGateway → ℕ → ℕ → Claims → M CheckoutResult
checkout gateway reservation_ttl order_id claims = do
  existing ← call pool (find_order_by_id order_id)
  check_owner existing claims
  if is_pending existing.status then pure tt else fail order_not_pending
  intent ← or_gateway_failed (
      gateway (record {
        order_id = existing.id;
        amount_in_cents = existing.total_in_cents;
        customer_email = existing.customer_email;
      }))
  now ← time_now
  marked ← attempt (
      call pool (
        mark_order_awaiting_payment (record {
          id = order_id;
          stripe_payment_intent_id = intent.id;
          expires_at = now + reservation_ttl;
        })))
  order ← or_not_pending marked
  pure (record {
    order = order;
    payment_intent_id = intent.id;
    client_secret = intent.client_secret;
  })

unfoldable pub cancel_order : ℕ → Claims → M Order
cancel_order order_id claims = in_transaction do
  existing ← call tx (find_order_by_id order_id)
  check_owner existing claims
  marked ← attempt (call tx (cancel_pending_order order_id))
  order ← or_not_pending marked
  call tx (release_stock order.product_id)
  commit
  pure order

-- What a successful payment means for an order that could not be completed.
unfoldable pub classify_unfulfillable : OwnedOrder → Result (Unit {0})
classify_unfulfillable o = elim o.status [
  | completed ↦ ok tt
  | s ↦ err (paid_but_not_fulfillable o.id s)
]

-- Zero rows: judge by a fresh read, never by the one before.
unfoldable pub after_complete : String → Result Order → M (Unit {0})
after_complete intent (ok order) = do call tx (commit_stock order.product_id); commit
after_complete intent (err no_rows) = do
  current ← call tx (find_order_by_payment_intent_id intent)
  lift (classify_unfulfillable current)
after_complete intent (err e) = fail e

unfoldable pub fulfill_payment : String → M (Unit {0})
fulfill_payment intent = in_transaction do
  existing ← call tx (find_order_by_payment_intent_id intent)
  order ← attempt (call tx (complete_order existing.id))
  after_complete intent order

unfoldable pub after_fail : Result Order → M (Unit {0})
after_fail (ok order) = do call tx (release_stock order.product_id); commit
after_fail (err no_rows) = pure tt
after_fail (err e) = fail e

unfoldable pub fail_payment : String → M (Unit {0})
fail_payment intent = in_transaction do
  existing ← call tx (find_order_by_payment_intent_id intent)
  order ← attempt (call tx (fail_order existing.id))
  after_fail order

unfoldable pub release_each : List Order → M (Unit {0})
release_each [] = pure tt
release_each (o ∷ os) = do call tx (release_stock o.product_id); release_each os

unfoldable pub after_expire : List Order → M ℕ
after_expire [] = pure 0
after_expire (o ∷ os) = do release_each (o ∷ os); commit; pure (length (o ∷ os))

unfoldable pub sweep_expired : ℕ → M ℕ
sweep_expired batch_size =
    in_transaction do lapsed ← call tx (expire_orders batch_size); after_expire lapsed
