-- ===== src/Payments/Routing.antt =====
-- The list of event types that are fetched and the routing of an event do not drift apart.
use doorbust.Base.{
  String, Bool, true, false, ◌||◌, ◌≡◌, List, [], ◌∷◌, str_eq, Bool-cases, inl, inr, refl,
}
use doorbust.Payments.Events.{
  EventAction, action_ignore, action_for, handled_event_types, payment_intent_succeeded,
  payment_intent_payment_failed, payment_intent_canceled,
}

abbrev pub is_one_of : String → List String → Bool
is_one_of t [] = false
is_one_of t (x ∷ xs) = str_eq t x || is_one_of t xs

abbrev pub drives_order : EventAction → Bool
drives_order action_ignore = false
drives_order _ = true

-- An event drives an order exactly where its type is one of those that the poller fetches.
pub action_for-handled :
    (t : String) → drives_order (action_for t) ≡ is_one_of t handled_event_types
unfolding action_for
action_for-handled t = elim (Bool-cases (str_eq t payment_intent_succeeded)) [
  | inl a ↦ rw a refl
  | inr a ↦ rw a (elim (Bool-cases (str_eq t payment_intent_payment_failed)) [
    | inl b ↦ rw b refl
    | inr b ↦ rw b (elim (Bool-cases (str_eq t payment_intent_canceled)) [
      | inl c ↦ rw c refl
      | inr c ↦ rw c refl
    ])
  ])
]
