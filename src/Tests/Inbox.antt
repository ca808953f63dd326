-- ===== src/Tests/Inbox.antt =====
-- Runs of the reads of the storefront, of the inbox, and of the answers to errors.
use doorbust.Base.{◌≡◌, refl, some, none, [], ◌∷◌}
use doorbust.Store.{Db, ok, order_not_pending, connection_lost, pending}
use doorbust.Queries.EventRows.{
  InsertStripeEventParams, new_event, insert_stripe_event, latest_stripe_event_created_at,
}
use doorbust.Queries.Pages.{
  insert_by, sort_by, listed_orders, listed_products, list_products as select_products,
  list_orders_by_customer,
}
use doorbust.Queries.ProductRows.{stocked, find_product_by_id}
use doorbust.Session.{call}
use doorbust.Session.Calm.{calm, calm_turn, idle}
use doorbust.Products.{list_products, get_product}
use doorbust.Orders.Handler.{order_error, order_not_pending_code, internal_code}
use doorbust.Tests.Shop.{shop, chair, chairs, order_in}

got : (get_product 7 (calm 50 50) (idle shop)).0 ≡ ok (stocked chair chairs)
unfolding get_product find_product_by_id call
got = refl

listed : (list_products 20 0 (calm 50 50) (idle shop)).0 ≡ ok (stocked chair chairs ∷ [])
unfolding list_products select_products sort_by insert_by listed_products call
listed = refl

orders_of_ann : list_orders_by_customer 1 20 0 (calm_turn 50 50) shop ≡ (
  ok (record { order = order_in pending none; product_name = "chair"; price_in_cents = 4900 } ∷ []),
  shop,
)
unfolding list_orders_by_customer sort_by insert_by listed_orders
orders_of_ann = refl

abbrev event : InsertStripeEventParams
event = record {
  id = "evt_1";
  type = "payment_intent.succeeded";
  payload = "{}";
  stripe_created_at = some 33;
}

abbrev inbox : Db
inbox = record shop { events = new_event event (calm_turn 50 50) ∷ [] }

inserted : insert_stripe_event event (calm_turn 50 50) shop ≡ (ok 1, inbox)
unfolding insert_stripe_event
inserted = refl

-- The same event again.
inserted_twice : insert_stripe_event event (calm_turn 60 60) inbox ≡ (ok 0, inbox)
unfolding insert_stripe_event
inserted_twice = refl

newest : latest_stripe_event_created_at (calm_turn 50 50) inbox ≡ (ok (some 33), inbox)
unfolding latest_stripe_event_created_at
newest = refl

conflict : order_error order_not_pending ≡ (409, order_not_pending_code)
unfolding order_error
conflict = refl

hidden : order_error connection_lost ≡ (500, internal_code)
unfolding order_error
hidden = refl
