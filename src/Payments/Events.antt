-- ===== src/Payments/Events.antt =====
-- internal/payments/events.go: what each type of event does.
use doorbust.Base.{String, List, [], ◌∷◌, ◌||◌, str_eq, if◌then◌else◌}

pub data EventAction : Type 0 where
  action_ignore action_fulfill action_fail : EventAction

abbrev pub payment_intent_succeeded : String
payment_intent_succeeded = "payment_intent.succeeded"

abbrev pub payment_intent_payment_failed : String
payment_intent_payment_failed = "payment_intent.payment_failed"

abbrev pub payment_intent_canceled : String
payment_intent_canceled = "payment_intent.canceled"

abbrev pub handled_event_types : List String
handled_event_types =
    payment_intent_succeeded ∷ payment_intent_payment_failed ∷ payment_intent_canceled ∷ []

unfoldable pub action_for : String → EventAction
action_for event_type =
    if str_eq event_type payment_intent_succeeded
    then action_fulfill
    else if str_eq event_type payment_intent_payment_failed
        || str_eq event_type payment_intent_canceled
    then action_fail
    else action_ignore
