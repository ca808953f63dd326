-- ===== src/Tests/Entrances.antt =====
-- A payment's intent and its event, and a vendor's profile.
use doorbust.Base.{◌≡◌, refl, some, none, true, str_eq, if◌then◌else◌}
use doorbust.Base.Decimal.{value}
use doorbust.Store.{ok}
use doorbust.Session.Calm.{calm, idle}
use doorbust.Orders.Service.{PaymentIntentParams}
use doorbust.Orders.Handler.Routes.{sent}
use doorbust.Payments.Gateway.{intent_params}
use doorbust.Payments.Gateway.Keys.{number_after, intent_params-order_id}
use doorbust.Payments.Poller.Recording.{has_event}
use doorbust.Payments.Webhook.{Event, ConstructEvent, handle_webhook}
use doorbust.Payments.Webhook.Delivery.{handle_webhook-redelivered}
use doorbust.Tests.Shop.{paying_shop}

abbrev order_ten : PaymentIntentParams
order_ten = record { order_id = 10; amount_in_cents = 4900; customer_email = "ann@example.com" }

intent_params-order_id_example :
    (number_after "doorbust-order-" (intent_params "usd" order_ten).idempotency_key ≡ some 10)
    × (value 0 (intent_params "usd" order_ten).order_id ≡ 10)
intent_params-order_id_example = intent_params-order_id "usd" order_ten

abbrev paid : Event
paid = record { id = "evt_1"; type = "payment_intent.succeeded"; created = 55 }

-- The secret itself is the signature.
abbrev by_secret : ConstructEvent
by_secret payload signature secret = if str_eq signature secret then some paid else none

handle_webhook-redelivered_example :
    let first =
      handle_webhook by_secret "whsec" (some "pi_1") "whsec" (calm 56 1) (idle paying_shop) in
    let second = handle_webhook by_secret "whsec" (some "pi_1") "whsec" (calm 60 2) first.1 in
    (first.0 ≡ ok (sent 200 "received"))
    × (has_event "evt_1" first.1.shared ≡ true)
    × (second.0 ≡ ok (sent 200 "received"))
    × (second.1.shared ≡ first.1.shared)
handle_webhook-redelivered_example =
    handle_webhook-redelivered by_secret "whsec" "pi_1" "whsec" paid refl 56 1 (idle paying_shop) 60
      2
