-- ===== src/Orders/Balance.antt =====
-- Every operation of internal/orders/service.go leaves the books of every product in order,
-- whatever other transactions commit between its statements and whichever of its calls fail.
use doorbust.Base.{List, sum, [], ◌∷◌, ℕ, ◌+◌, String, arith}
use doorbust.Store.{Db, Order, Result, ok, err, no_rows, forbidden}
use doorbust.Session.{World, Env, pure, fail}
use doorbust.Session.Rules.{
  Holds-return, Holds-weaken_post, Holds, Holds-pure, Holds-fail, Holds-if, Holds-lift, Holds-bind,
}
use doorbust.Queries.OrderRows.{OwnedOrder}
use doorbust.Auth.{Claims}
use doorbust.Ledger.ExpiryEffects.{expire_orders-Moves}
use doorbust.Orders.Service.{
  release_each, after_expire, sweep_expired, cancel_order, check_owner, or_not_pending, owns,
  fulfill_payment, after_complete, fail_payment, after_fail,
}
use doorbust.Ledger.StockEffects.{commit_stock-Moves, release_stock-Moves}
use doorbust.Ledger.OrderEffects.{
  complete_order-Moves, cancel_pending_order-Moves, fail_order-Moves, of_order,
}
use doorbust.Ledger.OtherEffects.{find_order_by_id-Moves, find_order_by_payment_intent_id-Moves}
use doorbust.Ledger.{Account}
use doorbust.Ledger.Actions.{
  Post-same, RelyOn, Inside, Outside, Stepped, Holds-call, Holds-attempt-call, Holds-commit,
  Holds-in_transaction,
}

-- A failure in a transaction leaves what is committed as it is.
pub leave :
    {p : Account} {base : Db} {x y u v : ℕ} (w : World) → Inside p base x y u v w → Outside p base w
leave w h = record { kept = h.kept }

module _ {env : Env} {p : Account} {base : Db} where
  check_owner-Holds :
      (o : OwnedOrder) (claims : Claims) {P : World → Type 0}
      → ((w : World) → P w → Outside p base w)
      → Holds env P (check_owner o claims) (λ _. P) (Outside p base)
  unfolding check_owner
  check_owner-Holds o claims out =
      Holds-if (owns o.customer_cognito_sub o.customer_email claims) (pure tt) (fail forbidden)
        (λ _. Holds-pure tt) (λ _. Holds-fail forbidden out)

  or_not_pending-Holds :
      (fx fy fu fv : Order → ℕ) (x y u v : ℕ) (r : Result Order)
      → Holds env
          (Stepped p base fx fy fu fv x y u v r)
          (or_not_pending r)
          (λ o. Inside p base (x + fx o) (y + fy o) (u + fu o) (v + fv o))
          (Outside p base)
  unfolding or_not_pending
  or_not_pending-Holds fx fy fu fv x y u v (ok o) = Holds-pure o
  or_not_pending-Holds fx fy fu fv x y u v (err no_rows) = Holds-fail _ leave
  or_not_pending-Holds fx fy fu fv x y u v (err _) = Holds-fail _ leave

module _ {env : Env} {p : Account} (rely : RelyOn p env) {base : Db} where
  pub cancel_order-Outside :
      (order_id : ℕ) (claims : Claims)
      → Holds env
          (Outside p base)
          (cancel_order order_id claims)
          (λ _. Outside p base)
          (Outside p base)
  unfolding cancel_order
  cancel_order-Outside order_id claims = Holds-in_transaction rely _ (
      Holds-bind _ _ _ (Holds-call rely _ (find_order_by_id-Moves p order_id)) λ existing.
        Holds-bind _ _ _ (check_owner-Holds existing claims leave) λ _.
          Holds-bind _ _ _ (Holds-attempt-call rely _ (cancel_pending_order-Moves p order_id))
            λ marked.
              Holds-bind _ _ _
                (or_not_pending-Holds (λ _. 0) (of_order p) (λ _. 0) (λ _. 0) 0 0 0 0 marked)
                λ order.
                  Holds-bind _ _ _ (Holds-call rely _ (release_stock-Moves p order.product_id)) λ _.
                    Holds-bind _ _ _ (Holds-commit rely (omega arith) (omega arith))
                      λ _. Holds-pure order)

  after_complete-Outside :
      (intent : String) (r : Result Order)
      → Holds env
          (Stepped p base (λ _. 0) (of_order p) (λ _. 0) (of_order p) 0 0 0 0 r)
          (after_complete intent r)
          (λ _. Outside p base)
          (Outside p base)
  unfolding after_complete
  after_complete-Outside intent (ok order) =
      Holds-bind _ _ _ (Holds-call rely _ (commit_stock-Moves p order.product_id))
        λ _. Holds-commit rely (omega arith) (omega arith)
  after_complete-Outside intent (err no_rows) =
      Holds-bind _ _ _ (Holds-call rely _ (find_order_by_payment_intent_id-Moves p intent))
        λ current. Holds-lift _ (λ w h. Post-same p base _ w (leave w h))
  after_complete-Outside intent (err e) = Holds-fail e leave

  pub fulfill_payment-Outside :
      (intent : String)
      → Holds env (Outside p base) (fulfill_payment intent) (λ _. Outside p base) (Outside p base)
  unfolding fulfill_payment
  fulfill_payment-Outside intent = Holds-in_transaction rely _ (
      Holds-bind _ _ _ (Holds-call rely _ (find_order_by_payment_intent_id-Moves p intent))
        λ existing.
          Holds-bind _ _ _ (Holds-attempt-call rely _ (complete_order-Moves p existing.id))
            (after_complete-Outside intent))

  after_fail-Outside :
      (r : Result Order)
      → Holds env
          (Stepped p base (λ _. 0) (of_order p) (λ _. 0) (λ _. 0) 0 0 0 0 r)
          (after_fail r)
          (λ _. Outside p base)
          (Outside p base)
  unfolding after_fail
  after_fail-Outside (ok order) =
      Holds-bind _ _ _ (Holds-call rely _ (release_stock-Moves p order.product_id))
        λ _. Holds-commit rely (omega arith) (omega arith)
  after_fail-Outside (err no_rows) = Holds-return tt leave
  after_fail-Outside (err e) = Holds-fail e leave

  pub fail_payment-Outside :
      (intent : String)
      → Holds env (Outside p base) (fail_payment intent) (λ _. Outside p base) (Outside p base)
  unfolding fail_payment
  fail_payment-Outside intent = Holds-in_transaction rely _ (
      Holds-bind _ _ _ (Holds-call rely _ (find_order_by_payment_intent_id-Moves p intent))
        λ existing.
          Holds-bind _ _ _ (Holds-attempt-call rely _ (fail_order-Moves p existing.id))
            after_fail-Outside)

  -- Releasing a unit for each of the orders makes up for their expiry.
  release_each-Inside :
      (os : List Order) {x y u v : ℕ}
      → Holds env
          (Inside p base x y u v)
          (release_each os)
          (λ _. Inside p base (x + sum (of_order p) os) y u v)
          (Outside p base)
  unfolding release_each sum
  release_each-Inside [] = Holds-return tt λ w h. record { kept = h.kept; ahead = omega arith }
  release_each-Inside (o ∷ os) =
      Holds-bind _ _ _ (Holds-call rely _ (release_stock-Moves p o.product_id)) λ _.
        Holds-weaken_post (release_each os) _ (release_each-Inside os)
          (λ _ w h. record { kept = h.kept; ahead = omega arith })

  after_expire-Outside :
      (os : List Order)
      → Holds env
          (Inside p base 0 (sum (of_order p) os) 0 0)
          (after_expire os)
          (λ _. Outside p base)
          (Outside p base)
  unfolding after_expire
  after_expire-Outside [] = Holds-return 0 leave
  after_expire-Outside (o ∷ os) =
      Holds-bind _ _ _ (release_each-Inside (o ∷ os))
        λ _. Holds-bind _ _ _ (Holds-commit rely (omega arith) (omega arith)) λ _. Holds-pure _

  pub sweep_expired-Outside :
      (batch_size : ℕ)
      → Holds env (Outside p base) (sweep_expired batch_size) (λ _. Outside p base) (Outside p base)
  unfolding sweep_expired
  sweep_expired-Outside batch_size = Holds-in_transaction rely _ (
      Holds-bind _ _ (λ os. Inside p base 0 (sum (of_order p) os) 0 0)
        (Holds-weaken_post _ _
          (Holds-call rely _ (expire_orders-Moves p batch_size) {x = 0} {y = 0} {u = 0} {v = 0})
          (λ os w h. record { kept = h.kept; ahead = omega arith }))
        after_expire-Outside)
