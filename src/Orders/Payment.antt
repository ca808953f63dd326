-- ===== src/Orders/Payment.antt =====
-- What a payment does to an order that can take it, and to one that cannot.
use doorbust.Base.{ℕ, ◌==◌, String, false, ◌≡◌, refl, some, find, find-IsRow, IsRow, ◌⊎◌, inl, inr}
use doorbust.Store.{
  Db, Order, Customer, Status, pending, awaiting_payment, completed, failed, expired, cancelled,
  unrecognized, is_awaiting_payment, Result, ok, err, no_rows, paid_but_not_fulfillable,
}
use doorbust.Queries.Turns.{Turn}
use doorbust.Queries.OrderRows.{has_intent, find_order_by_payment_intent_id, complete_order, owned}
use doorbust.Session.{call, commit, in_transaction, ◌>>=◌, attempt, lift}
use doorbust.Session.Calm.{calm, calm_turn, idle}
use doorbust.Orders.Service.{fulfill_payment, after_complete, classify_unfulfillable}
use doorbust.Orders.Transitions.{guarded-none}
use doorbust.Ledger.{flaws}

module _ (turn : Turn) (db : Db) where
  pub find_order_by_payment_intent_id_lem :
      (intent : String) (o : Order) (c : Customer)
      → find (has_intent intent) db.orders ≡ some o
      → find (λ c. c.id == o.customer_id) db.customers ≡ some c
      → find_order_by_payment_intent_id intent turn db ≡ (ok (owned o c), db)
  unfolding find_order_by_payment_intent_id
  find_order_by_payment_intent_id_lem intent o c found owner = rw found (rw owner refl)

  complete_order-refused :
      (o : Order)
      → flaws db ≡ 0
      → IsRow db.orders o
      → is_awaiting_payment o.status ≡ false
      → complete_order o.id turn db ≡ (err no_rows, db)
  unfolding complete_order
  complete_order-refused o sound row other =
      rw (guarded-none db is_awaiting_payment completed o sound row other) refl

-- The answer for an order that does not await a payment: success where it is already completed, and else
-- an error that names the order and its status.
abbrev pub IsAnswered : Order → Result (Unit {0}) → Type 0
IsAnswered o r =
    ((o.status ≡ completed) × (r ≡ ok tt))
    ⊎ ((o.status ≡ completed → ⊥) × (r ≡ err (paid_but_not_fulfillable o.id o.status)))

pub IsAnswered-completed :
    (o : Order) (r : Result (Unit {0})) → o.status ≡ completed → IsAnswered o r → r ≡ ok tt
IsAnswered-completed o r e (inl (h, answer)) = answer
IsAnswered-completed o r e (inr (h, answer)) = absurd (h e)

classify_unfulfillable-IsAnswered :
    (o : Order) (c : Customer) (s : Status)
    → o.status ≡ s
    → IsAnswered o (classify_unfulfillable (owned o c))
unfolding classify_unfulfillable
classify_unfulfillable-IsAnswered o c completed e = inl (e, rw e refl)
classify_unfulfillable-IsAnswered o c pending e = inr (λ h. cc, rw e refl)
classify_unfulfillable-IsAnswered o c awaiting_payment e = inr (λ h. cc, rw e refl)
classify_unfulfillable-IsAnswered o c failed e = inr (λ h. cc, rw e refl)
classify_unfulfillable-IsAnswered o c expired e = inr (λ h. cc, rw e refl)
classify_unfulfillable-IsAnswered o c cancelled e = inr (λ h. cc, rw e refl)
classify_unfulfillable-IsAnswered o c (unrecognized t) e = inr (λ h. cc, rw e refl)

-- A payment for an order that is not awaiting one changes nothing and is judged by the order's status: it
-- succeeds where the order is already completed, so a second delivery of an event is harmless, and for
-- any other status it ends in an error that names the order and the status. Here nothing else happens
-- meanwhile, no two orders share an id, and the order and its customer are the ones that the payment's
-- intent leads to.
pub fulfill_payment-classified :
    (now nextval : ℕ) (db : Db) (intent : String) (o : Order) (c : Customer)
    → flaws db ≡ 0
    → find (has_intent intent) db.orders ≡ some o
    → find (λ c. c.id == o.customer_id) db.customers ≡ some c
    → is_awaiting_payment o.status ≡ false
    → IsAnswered o (fulfill_payment intent (calm now nextval) (idle db)).0
      × ((fulfill_payment intent (calm now nextval) (idle db)).1.shared ≡ db)
unfolding fulfill_payment after_complete in_transaction call commit ◌>>=◌ attempt lift
fulfill_payment-classified now nextval db intent o c sound found owner other =
    let lookup =
      find_order_by_payment_intent_id_lem (calm_turn now nextval) db intent o c found owner in
    let refusal =
      complete_order-refused (calm_turn now nextval) db o sound
        (find-IsRow (has_intent intent) db.orders o found) other in
    rw lookup (rw refusal (rw lookup (classify_unfulfillable-IsAnswered o c o.status refl, refl)))
