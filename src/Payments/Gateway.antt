-- ===== src/Payments/Gateway.antt =====
-- internal/payments/gateway.go: the request of a payment intent. The processor's API is a parameter.
pub mod Keys
use Prim.Native.String.{[] as empty, ◌∷◌ as char_then}
use doorbust.Base.{ℕ, String, Bool, true, Option, none, some, List, [], ◌∷◌, str_eq, if◌then◌else◌}
use doorbust.Base.Decimal.{decimal}
use doorbust.Orders.Service.{PaymentIntentParams, PaymentIntent, PaymentGateway}

-- fmt.Sprintf with one %d at the end.
unfoldable pub with_number : String → ℕ → String
with_number empty n = decimal n
with_number (char_then c s) n = char_then c (with_number s n)

abbrev pub idempotency_key : ℕ → String
idempotency_key order_id = with_number "doorbust-order-" order_id

pub record PaymentIntentCreateParams : Type 0 where
  pub amount : ℕ
  pub currency : String
  pub automatic_payment_methods : Bool
  pub description : String
  pub idempotency_key : String
  -- metadata["order_id"]
  pub order_id : String
  pub receipt_email : Option String

abbrev receipt : String → Option String
receipt email = if str_eq email "" then none else some email

pub record StripeGateway : Type 0 where
  pub currency : String
  -- client.V1PaymentIntents.Create; `none` where it answers with an error
  pub create : PaymentIntentCreateParams → Option PaymentIntent

unfoldable pub intent_params : String → PaymentIntentParams → PaymentIntentCreateParams
intent_params currency p = record {
  amount = p.amount_in_cents;
  currency = currency;
  automatic_payment_methods = true;
  description = with_number "doorbust order " p.order_id;
  idempotency_key = idempotency_key p.order_id;
  order_id = decimal p.order_id;
  receipt_email = receipt p.customer_email;
}

unfoldable pub create_payment_intent : StripeGateway → PaymentGateway
create_payment_intent g p = g.create (intent_params g.currency p)
