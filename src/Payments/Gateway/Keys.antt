-- ===== src/Payments/Gateway/Keys.antt =====
-- The key and the metadata of an intent lead back to the order.

use Prim.Native.Char.{code}
use Prim.Native.String.{[] as empty, ◌∷◌ as char_then}
use doorbust.Base.{ℕ, String, Option, none, some, ◌≡◌, refl, ap, ==-same}
use doorbust.Base.Decimal.{decimal, value, value-decimal}
use doorbust.Orders.Service.{PaymentIntentParams}
use doorbust.Payments.Gateway.{with_number, intent_params}
use doorbust.Auth.Middleware.{strip_prefix}

abbrev number_in : Option String → Option ℕ
number_in none = none
number_in (some s) = some (value 0 s)

-- The number behind a text, where one begins with it.
abbrev pub number_after : String → String → Option ℕ
number_after prefix s = number_in (strip_prefix prefix s)

strip_prefix-with_number :
    (p : String) (n : ℕ) → strip_prefix p (with_number p n) ≡ some (decimal n)
unfolding strip_prefix with_number
strip_prefix-with_number empty n = refl
strip_prefix-with_number (char_then c p) n = rw (==-same (code c)) (strip_prefix-with_number p n)

-- The order's id is read back from the idempotency key of its intent and from the metadata: no two
-- orders share a key.
pub intent_params-order_id :
    (currency : String) (p : PaymentIntentParams)
    → (number_after "doorbust-order-" (intent_params currency p).idempotency_key ≡ some p.order_id)
      × (value 0 (intent_params currency p).order_id ≡ p.order_id)
unfolding intent_params
intent_params-order_id currency p = (
  rw (strip_prefix-with_number "doorbust-order-" p.order_id)
      (ap (λ (n : ℕ). some n) (value-decimal p.order_id)),
  value-decimal p.order_id,
)
