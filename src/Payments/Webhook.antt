-- ===== src/Payments/Webhook.antt =====
-- internal/payments/handler.go: HandleWebhook, the inbox's other entrance.
pub mod Delivery
use doorbust.Base.{ℕ, String, Option, none, some}
use doorbust.Store.{Result, ok, err}
use doorbust.Session.{M, pure, attempt, ◌>>=◌, pool, call}
use doorbust.Queries.EventRows.{insert_stripe_event}
use doorbust.Orders.Handler.{Code, internal_code, invalid_request_code}
use doorbust.Orders.Handler.Routes.{Reply, sent, rejected}

-- What stripe's webhook.ConstructEvent makes of a payload.
pub record Event : Type 0 where
  pub id : String
  pub type : String
  pub created : ℕ

-- The payload, the Stripe-Signature header and the webhook secret; `none` is a bad signature.
abbrev pub ConstructEvent : Type 0
ConstructEvent = String → String → String → Option Event

-- A redelivery, with no row inserted, is answered as the first delivery is.
abbrev pub received : Result ℕ → Reply String
received (err e) = rejected 500 internal_code
received (ok inserted) = sent 200 "received"

abbrev pub record_event : String → Option Event → M (Reply String)
record_event payload none = pure (rejected 400 invalid_request_code)
record_event payload (some event) = do
  inserted ← attempt (
      call pool (
        insert_stripe_event (record {
          id = event.id;
          type = event.type;
          payload = payload;
          stripe_created_at = some event.created;
        })))
  pure (received inserted)

-- The body, `none` where it is too long or cannot be read.
unfoldable pub handle_webhook : ConstructEvent → String → Option String → String → M (Reply String)
handle_webhook construct_event secret none signature = pure (rejected 400 invalid_request_code)
handle_webhook construct_event secret (some payload) signature =
    record_event payload (construct_event payload signature secret)
