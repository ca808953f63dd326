-- ===== src/Payments/Kept/Applying.antt =====
-- Applying an event to its order leaves the inbox alone.
use doorbust.Base.{
  ℕ, ◌==◌, String, leb, ◌≡◌, refl, Option, none, some, List, find, update_first, Bool-cases, inl,
  inr,
}
use doorbust.Store.{
  Db, Order, Customer, Stock, StripeEvent, Result, ok, err, no_rows, completed, failed,
}
use doorbust.Queries.StockRows.{
  commit_stock, release_stock, returning_stock, has_reservation, commit_one, release_one,
}
use doorbust.Queries.OrderRows.{
  find_order_by_payment_intent_id, complete_order, fail_order, returning_order, join_owner,
  join_customer, has_intent, is_awaiting_order, with_status,
}
use doorbust.Session.{Env}
use doorbust.Session.Rules.{Holds-pure}
use doorbust.Orders.Service.{fulfill_payment, after_complete, fail_payment, after_fail}
use doorbust.Payments.Events.{EventAction, action_ignore, action_fulfill, action_fail, action_for}
use doorbust.Payments.Worker.{Codec, apply, apply_action}
use doorbust.Payments.Kept.{
  Keeps, Kept, call-Inbox, commit-Inbox, in_transaction-Inbox, attempt-Inbox, lift-Inbox,
  bind-Inbox, fail-Inbox,
}

returning_stock-kept :
    (db : Db) (r : Option (Stock × List Stock)) → (returning_stock db r).1.events ≡ db.events
returning_stock-kept db none = refl
returning_stock-kept db (some (s, rows)) = elim (Bool-cases (leb s.num_reserved s.quantity)) [
  | inl e ↦ rw e refl
  | inr e ↦ rw e refl
]

returning_order-kept :
    (db : Db) (r : Option (Order × List Order)) → (returning_order db r).1.events ≡ db.events
returning_order-kept db none = refl
returning_order-kept db (some (o, rows)) = refl

commit_stock-Keeps : (p : ℕ) → Keeps (commit_stock p)
unfolding commit_stock
commit_stock-Keeps p t db =
    returning_stock-kept db (update_first (has_reservation p) commit_one db.stock)

release_stock-Keeps : (p : ℕ) → Keeps (release_stock p)
unfolding release_stock
release_stock-Keeps p t db =
    returning_stock-kept db (update_first (has_reservation p) release_one db.stock)

complete_order-Keeps : (id : ℕ) → Keeps (complete_order id)
unfolding complete_order
complete_order-Keeps id t db =
    returning_order-kept db (update_first (is_awaiting_order id) (with_status completed) db.orders)

fail_order-Keeps : (id : ℕ) → Keeps (fail_order id)
unfolding fail_order
fail_order-Keeps id t db =
    returning_order-kept db (update_first (is_awaiting_order id) (with_status failed) db.orders)

join_owner-kept :
    (db : Db) (o : Order) (c : Option Customer) → (join_owner db o c).1.events ≡ db.events
join_owner-kept db o none = refl
join_owner-kept db o (some c) = refl

join_customer-kept : (db : Db) (o : Option Order) → (join_customer db o).1.events ≡ db.events
join_customer-kept db none = refl
join_customer-kept db (some o) =
    join_owner-kept db o (find (λ c. c.id == o.customer_id) db.customers)

find-Keeps : (intent : String) → Keeps (find_order_by_payment_intent_id intent)
unfolding find_order_by_payment_intent_id
find-Keeps intent t db = join_customer-kept db (find (has_intent intent) db.orders)

module _ (env : Env) (nobody : (n : ℕ) (db : Db) → (env n).meanwhile db ≡ db)
    (events : List StripeEvent) where
  after_complete-Inbox :
      (intent : String) (r : Result Order) → Kept env nobody events (after_complete intent r)
  unfolding after_complete
  after_complete-Inbox intent (ok o) =
      bind-Inbox env nobody events _ _
        (call-Inbox env nobody events (commit_stock o.product_id) (commit_stock-Keeps o.product_id))
        λ _. commit-Inbox env nobody events
  after_complete-Inbox intent (err no_rows) =
      bind-Inbox env nobody events _ _
        (call-Inbox env nobody events (find_order_by_payment_intent_id intent) (find-Keeps intent))
        λ _. lift-Inbox env nobody events _
  after_complete-Inbox intent (err e) = fail-Inbox env nobody events e

  after_fail-Inbox : (r : Result Order) → Kept env nobody events (after_fail r)
  unfolding after_fail
  after_fail-Inbox (ok o) =
      bind-Inbox env nobody events _ _
        (call-Inbox env nobody events (release_stock o.product_id)
          (release_stock-Keeps o.product_id))
        λ _. commit-Inbox env nobody events
  after_fail-Inbox (err no_rows) = Holds-pure tt
  after_fail-Inbox (err e) = fail-Inbox env nobody events e

  fulfill_payment-Inbox : (intent : String) → Kept env nobody events (fulfill_payment intent)
  unfolding fulfill_payment
  fulfill_payment-Inbox intent = in_transaction-Inbox env nobody events _ (
      bind-Inbox env nobody events _ _
        (call-Inbox env nobody events (find_order_by_payment_intent_id intent) (find-Keeps intent))
        λ o.
          attempt-Inbox env nobody events _ _
            (call-Inbox env nobody events (complete_order o.id) (complete_order-Keeps o.id))
            (after_complete-Inbox intent))

  fail_payment-Inbox : (intent : String) → Kept env nobody events (fail_payment intent)
  unfolding fail_payment
  fail_payment-Inbox intent = in_transaction-Inbox env nobody events _ (
      bind-Inbox env nobody events _ _
        (call-Inbox env nobody events (find_order_by_payment_intent_id intent) (find-Keeps intent))
        λ o.
          attempt-Inbox env nobody events _ _
            (call-Inbox env nobody events (fail_order o.id) (fail_order-Keeps o.id))
            after_fail-Inbox)

  apply_action-Inbox :
      (codec : Codec) (payload : String) (a : EventAction)
      → Kept env nobody events (apply_action codec payload a)
  unfolding apply_action
  apply_action-Inbox codec payload action_ignore = Holds-pure tt
  apply_action-Inbox codec payload action_fulfill =
      bind-Inbox env nobody events _ _ (lift-Inbox env nobody events _) fulfill_payment-Inbox
  apply_action-Inbox codec payload action_fail =
      bind-Inbox env nobody events _ _ (lift-Inbox env nobody events _) fail_payment-Inbox

  pub apply-Inbox : (codec : Codec) (e : StripeEvent) → Kept env nobody events (apply codec e)
  unfolding apply
  apply-Inbox codec e = apply_action-Inbox codec e.payload (action_for e.type)
