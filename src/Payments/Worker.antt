-- ===== src/Payments/Worker.antt =====
-- internal/payments/worker.go: one event of the inbox at a time.
use doorbust.Base.{
  ℕ, zero, suc, String, Bool, true, false, Option, none, some, str_eq, if◌then◌else◌,
}
use doorbust.Store.{
  StripeEvent, Error, Result, ok, err, no_rows, paid_but_not_fulfillable, bad_payload,
}
use doorbust.Session.{M, pure, fail, lift, attempt, ◌>>=◌, ◌>>◌, tx, call, commit, in_transaction}
use doorbust.Queries.EventRows.{
  claim_next_stripe_event, mark_stripe_event_processed, mark_stripe_event_failed,
}
use doorbust.Orders.Service.{fulfill_payment, fail_payment}
use doorbust.Payments.Events.{EventAction, action_ignore, action_fulfill, action_fail, action_for}

-- What the JSON decoder makes of a payload, and the text of an error.
pub record Codec : Type 0 where
  -- `none` where it is not an event, `some none` where that has no data object
  pub unmarshal_event : String → Option (Option String)
  -- the `id` of the object, "" where it has none
  pub unmarshal_object : String → Option String
  pub error_text : Error → String

abbrev checked_id : Option String → Result String
checked_id none = err bad_payload
checked_id (some id) = if str_eq id "" then err bad_payload else ok id

abbrev intent_in : Codec → Option (Option String) → Result String
intent_in codec none = err bad_payload
intent_in codec (some none) = err bad_payload
intent_in codec (some (some raw)) = checked_id (codec.unmarshal_object raw)

abbrev pub payment_intent_id : Codec → String → Result String
payment_intent_id codec payload = intent_in codec (codec.unmarshal_event payload)

unfoldable pub apply_action : Codec → String → EventAction → M (Unit {0})
apply_action codec payload action_ignore = pure tt
apply_action codec payload action_fulfill =
    lift (payment_intent_id codec payload) >>= fulfill_payment
apply_action codec payload action_fail = lift (payment_intent_id codec payload) >>= fail_payment

unfoldable pub apply : Codec → StripeEvent → M (Unit {0})
apply codec event = apply_action codec event.payload (action_for event.type)

-- A retry cannot help a payment that no order can take, nor an intent without an order.
unfoldable pub mark : Codec → StripeEvent → Result (Unit {0}) → M (Unit {0})
mark codec event (ok _) = call tx (mark_stripe_event_processed event.id none)
mark codec event (err (paid_but_not_fulfillable o s)) =
    call tx (
      mark_stripe_event_processed event.id (some (codec.error_text (paid_but_not_fulfillable o s))))
mark codec event (err no_rows) =
    call tx (mark_stripe_event_processed event.id (some (codec.error_text no_rows)))
mark codec event (err e) = call tx (mark_stripe_event_failed event.id (some (codec.error_text e)))

-- The claim has written nothing when `apply` opens a transaction of its own on another connection.
unfoldable pub after_event : Codec → Result StripeEvent → M Bool
after_event codec (ok event) = do
  outcome ← attempt (apply codec event)
  mark codec event outcome
  commit
  pure true
after_event codec (err no_rows) = pure false
after_event codec (err e) = fail e

unfoldable pub process_next : Codec → ℕ → M Bool
process_next codec max_attempts =
    in_transaction
      do event ← attempt (call tx (claim_next_stripe_event max_attempts)); after_event codec event

-- An error is logged and ends the round; `again` is the next round. The answer says whether the loop
-- has ended.
unfoldable pub after_next : M Bool → Result Bool → M Bool
after_next again (err e) = pure true
after_next again (ok false) = pure true
after_next again (ok true) = again

-- The loop of drain, for as long as the service is not shut down; `fuel` bounds its rounds.
unfoldable pub drain : ℕ → Codec → ℕ → M Bool
drain zero codec max_attempts = pure false
drain (suc fuel) codec max_attempts =
    attempt (process_next codec max_attempts) >>= after_next (drain fuel codec max_attempts)
