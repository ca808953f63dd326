-- ===== src/Orders/ServiceBalance.antt =====
-- The operations of internal/orders/service.go that run on the pool leave every product's books in
-- order.
use doorbust.Base.{ℕ, Option, some, none}
use doorbust.Store.{
  Db, Order, Result, ok, err, no_rows, order_not_pending, gateway_failed, forbidden, is_pending,
}
use doorbust.Session.{Env, pool, pure, fail, time_now}
use doorbust.Session.Rules.{Holds, Post, Holds-pure, Holds-fail, Holds-if, Holds-bind}
use doorbust.Queries.OrderRows.{OwnedOrder}
use doorbust.Customers.Balance.{link-CustomerCalls, Rely-CustomerCalls}
use doorbust.Auth.{Claims}
use doorbust.Orders.Strategies.{ReserveParams, Strategy}
use doorbust.Orders.Service.{
  list_orders, check_owner, owns, get_order, create_order, CreateOrderParams, PaymentGateway,
  PaymentIntent, or_gateway_failed, or_not_pending, checkout,
}
use doorbust.Ledger.OrderEffects.{mark_order_awaiting_payment-Moves}
use doorbust.Ledger.OtherEffects.{find_order_by_id-Moves, list_orders_by_customer-Moves}
use doorbust.Ledger.{Account}
use doorbust.Ledger.Actions.{RelyOn, Outside}
use doorbust.Ledger.Quiet.{Keeps-call, Holds-attempt}
use doorbust.Orders.ReserveBalance.{KeepsOutside}

module _ {env : Env} {p : Account} (rely : RelyOn p env) where
  check_owner-Keeps : (o : OwnedOrder) (claims : Claims) → KeepsOutside p env (check_owner o claims)
  unfolding check_owner
  check_owner-Keeps o claims base =
      Holds-if (owns o.customer_cognito_sub o.customer_email claims) (pure tt) (fail forbidden)
        (λ _. Holds-pure tt) (λ _. Holds-fail forbidden (λ _ h. h))

  pub get_order-Keeps : (id : ℕ) (claims : Claims) → KeepsOutside p env (get_order id claims)
  unfolding get_order
  get_order-Keeps id claims base =
      Holds-bind _ _ _ (Keeps-call rely base pool _ (find_order_by_id-Moves p id))
        λ order. Holds-bind _ _ _ (check_owner-Keeps order claims base) λ _. Holds-pure order

  pub list_orders-Keeps :
      (claims : Claims) (limit offset : ℕ) → KeepsOutside p env (list_orders claims limit offset)
  unfolding list_orders
  list_orders-Keeps claims limit offset base =
      Holds-bind _ _ _ (link-CustomerCalls (Rely-CustomerCalls rely base pool) claims)
        λ c. Keeps-call rely base pool _ (list_orders_by_customer-Moves p c.id limit offset)

  pub time_now-Keeps : KeepsOutside p env time_now
  unfolding time_now
  time_now-Keeps base = record { at = λ w h. h }

  pub create_order-Keeps :
      (reserve : Strategy) (ttl : ℕ) (m : CreateOrderParams)
      → ((r : ReserveParams) → KeepsOutside p env (reserve r))
      → KeepsOutside p env (create_order reserve ttl m)
  unfolding create_order
  create_order-Keeps reserve ttl m keeps base =
      Holds-bind _ _ _ (time_now-Keeps base) λ now. keeps _ base

  or_gateway_failed-Keeps : (r : Option PaymentIntent) → KeepsOutside p env (or_gateway_failed r)
  unfolding or_gateway_failed
  or_gateway_failed-Keeps none base = Holds-fail gateway_failed (λ _ h. h)
  or_gateway_failed-Keeps (some i) base = Holds-pure i

  or_not_pending-Keeps :
      (base : Db) (r : Result Order)
      → Holds env
          (Post (λ _. Outside p base) (Outside p base) r)
          (or_not_pending r)
          (λ _. Outside p base)
          (Outside p base)
  unfolding or_not_pending
  or_not_pending-Keeps base (ok o) = Holds-pure o
  or_not_pending-Keeps base (err no_rows) = Holds-fail _ (λ _ h. h)
  or_not_pending-Keeps base (err e) = Holds-fail _ (λ _ h. h)

  pub checkout-Keeps :
      (gateway : PaymentGateway) (ttl id : ℕ) (claims : Claims)
      → KeepsOutside p env (checkout gateway ttl id claims)
  unfolding checkout
  checkout-Keeps gateway ttl id claims base =
      Holds-bind _ _ _ (Keeps-call rely base pool _ (find_order_by_id-Moves p id)) λ o.
        Holds-bind _ _ _ (check_owner-Keeps o claims base) λ _.
          Holds-bind _ _ (λ _. Outside p base)
            (Holds-if (is_pending o.status) (pure tt) (fail order_not_pending) (λ _. Holds-pure tt)
              (λ _. Holds-fail order_not_pending (λ _ h. h)))
            λ _. Holds-bind _ _ _ (or_gateway_failed-Keeps _ base) λ intent.
              Holds-bind _ _ _ (time_now-Keeps base) λ now.
                Holds-bind _ _ _
                  (Holds-attempt _
                    (Keeps-call rely base pool _ (mark_order_awaiting_payment-Moves p _)))
                  λ marked.
                    Holds-bind _ _ _ (or_not_pending-Keeps base marked) λ order. Holds-pure _
