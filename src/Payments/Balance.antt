-- ===== src/Payments/Balance.antt =====
-- The worker leaves every product's books in order, whatever becomes of an event.
use doorbust.Base.{ℕ, String, true, false, refl}
use doorbust.Store.{Db, StripeEvent, Result, ok, err, no_rows, paid_but_not_fulfillable}
use doorbust.Session.{Env, tx}
use doorbust.Session.Rules.{
  Holds, Post, Holds-pure, Holds-return, Holds-fail, Holds-lift, Holds-bind, Holds-weaken,
  Holds-weaken_out,
}
use doorbust.Orders.Service.{fulfill_payment, fail_payment}
use doorbust.Orders.Balance.{leave, fulfill_payment-Outside, fail_payment-Outside}
use doorbust.Orders.ReserveBalance.{KeepsOutside}
use doorbust.Payments.Events.{EventAction, action_ignore, action_fulfill, action_fail, action_for}
use doorbust.Payments.Worker.{Codec, apply_action, apply, mark, after_event, process_next}
use doorbust.Ledger.OtherEffects.{
  claim_next_stripe_event-Moves, mark_stripe_event_processed-Moves, mark_stripe_event_failed-Moves,
}
use doorbust.Ledger.{Account}
use doorbust.Ledger.Actions.{RelyOn, Inside, Outside, Holds-commit, Holds-in_transaction}
use doorbust.Ledger.Quiet.{Keeps, Keeps-call, Keeps-nested, Holds-attempt, Post-both, Post-out}

module _ {env : Env} {p : Account} (rely : RelyOn p env) (base : Db) (codec : Codec) where
  fulfill_payment-Keeps :
      (intent : String) → Keeps env (Inside p base 0 0 0 0) (fulfill_payment intent)
  unfolding fulfill_payment
  fulfill_payment-Keeps intent =
      Keeps-nested rely base _
        (unfold fulfill_payment in (fulfill_payment-Outside rely {base = base} intent))

  fail_payment-Keeps : (intent : String) → Keeps env (Inside p base 0 0 0 0) (fail_payment intent)
  unfolding fail_payment
  fail_payment-Keeps intent =
      Keeps-nested rely base _
        (unfold fail_payment in (fail_payment-Outside rely {base = base} intent))

  apply_action-Keeps :
      (payload : String) (a : EventAction)
      → Keeps env (Inside p base 0 0 0 0) (apply_action codec payload a)
  unfolding apply_action
  apply_action-Keeps payload action_ignore = Holds-pure tt
  apply_action-Keeps payload action_fulfill =
      Holds-bind _ _ (λ _. Inside p base 0 0 0 0) (Holds-lift _ (Post-both _ _))
        fulfill_payment-Keeps
  apply_action-Keeps payload action_fail =
      Holds-bind _ _ (λ _. Inside p base 0 0 0 0) (Holds-lift _ (Post-both _ _)) fail_payment-Keeps

  apply-Keeps : (event : StripeEvent) → Keeps env (Inside p base 0 0 0 0) (apply codec event)
  unfolding apply
  apply-Keeps event = apply_action-Keeps event.payload (action_for event.type)

  mark-Keeps :
      (event : StripeEvent) (r : Result (Unit {0}))
      → Keeps env (Inside p base 0 0 0 0) (mark codec event r)
  unfolding mark
  mark-Keeps event (ok _) = Keeps-call rely base tx _ (mark_stripe_event_processed-Moves p _ _)
  mark-Keeps event (err (paid_but_not_fulfillable o s)) =
      Keeps-call rely base tx _ (mark_stripe_event_processed-Moves p _ _)
  mark-Keeps event (err no_rows) =
      Keeps-call rely base tx _ (mark_stripe_event_processed-Moves p _ _)
  mark-Keeps event (err e) = Keeps-call rely base tx _ (mark_stripe_event_failed-Moves p _ _)

  after_event-Outside :
      (r : Result StripeEvent)
      → Holds env
          (Post (λ _. Inside p base 0 0 0 0) (Inside p base 0 0 0 0) r)
          (after_event codec r)
          (λ _. Outside p base)
          (Outside p base)
  unfolding after_event
  after_event-Outside (ok event) = Holds-bind _ _ _ (Holds-attempt _ (apply-Keeps event)) λ outcome.
      Holds-bind _ _ (λ _. Inside p base 0 0 0 0)
        (Holds-weaken _ (Post-out (Inside p base 0 0 0 0) outcome)
          (Holds-weaken_out _ (mark-Keeps event outcome) leave))
        λ _. Holds-bind _ _ _ (Holds-commit rely refl refl) λ _. Holds-pure true
  after_event-Outside (err no_rows) = Holds-return false leave
  after_event-Outside (err e) = Holds-fail e leave

pub process_next-Keeps :
    {env : Env} {p : Account}
    → RelyOn p env
    → (codec : Codec) (max_attempts : ℕ) → KeepsOutside p env (process_next codec max_attempts)
unfolding process_next
process_next-Keeps {p = p} rely codec max_attempts base = Holds-in_transaction rely _ (
    Holds-bind _ _ _
      (Holds-attempt _ (Keeps-call rely base tx _ (claim_next_stripe_event-Moves p max_attempts)))
      (after_event-Outside rely base codec))
