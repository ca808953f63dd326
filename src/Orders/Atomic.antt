-- ===== src/Orders/Atomic.antt =====
-- The transactions of internal/orders are all or nothing: where an operation ends in an error, what
-- was committed before is what is committed after.
use doorbust.Base.{ℕ, Bool, true, false, ◌≡◌, String, List, [], ◌∷◌}
use doorbust.Store.{Db, Order, Stock, Result, ok, err, no_rows, Error, forbidden}
use doorbust.Session.{World, Env, M, pure, fail, commit, ◌>>=◌}
use doorbust.Session.Rules.{
  Holds, Post, Holds-pure, Holds-return, Holds-fail, Holds-if, Holds-lift, Holds-bind,
}
use doorbust.Session.Atomic.{
  IsAlone, Untouched, Anything, Untouched-call, Untouched-attempt, Untouched-commit,
  Untouched-in_transaction, failed-Untouched,
}
use doorbust.Queries.OrderRows.{OwnedOrder}
use doorbust.Queries.ProductRows.{StockedProduct}
use doorbust.Auth.{Claims}
use doorbust.Customers.{direct_resolve}
use doorbust.Customers.Balance.{direct_resolve-CustomerCalls}
use doorbust.Orders.Strategies.{
  ReserveParams, or_out_of_stock, reserve, create, reserve_and_create, txn_reserve,
}
use doorbust.Orders.Service.{
  owns, check_owner, or_not_pending, cancel_order, after_complete, fulfill_payment, after_fail,
  fail_payment, release_each, after_expire, sweep_expired,
}

abbrev Keeps : {A : Type 0} → Env → Db → M A → Type 0
Keeps env base m = Holds env (Untouched base) m (λ _. Untouched base) (Untouched base)

abbrev Settles : {A : Type 0} → Env → Db → M A → Type 0
Settles env base m = Holds env (Untouched base) m (λ _. Anything) (Untouched base)

module _ {env : Env} {base : Db} where
  refuse :
      {A : Type 0} (e : Error) {S : A → World → Type 0}
      → Holds env (Untouched base) (fail e) S (Untouched base)
  refuse e = Holds-fail e (λ _ h. h)

  check_owner-Untouched : (o : OwnedOrder) (claims : Claims) → Keeps env base (check_owner o claims)
  unfolding check_owner
  check_owner-Untouched o claims =
      Holds-if (owns o.customer_cognito_sub o.customer_email claims) (pure tt) (fail forbidden)
        (λ _. Holds-pure tt) (λ _. refuse forbidden)

  or_not_pending-Untouched : (r : Result Order) → Keeps env base (or_not_pending r)
  unfolding or_not_pending
  or_not_pending-Untouched (ok o) = Holds-pure o
  or_not_pending-Untouched (err no_rows) = refuse _
  or_not_pending-Untouched (err _) = refuse _

  or_out_of_stock-Untouched : (r : Result Stock) → Keeps env base (or_out_of_stock r)
  unfolding or_out_of_stock
  or_out_of_stock-Untouched (ok s) = Holds-pure s
  or_out_of_stock-Untouched (err no_rows) = refuse _
  or_out_of_stock-Untouched (err _) = refuse _

settled_answer :
    {A : Type 0} {base : Db} (r : Result A) (w : World)
    → Untouched base w
    → Post (λ _. Anything) (Untouched base) r w
settled_answer (ok _) w h = tt
settled_answer (err _) w h = h

module _ {env : Env} (alone : IsAlone env) {base : Db} where
  commit_and : {A : Type 0} (a : A) → Settles env base (commit >>= λ _. pure a)
  commit_and a = Holds-bind _ _ _ (Untouched-commit alone) λ _. Holds-return a (λ _ _. tt)

  after_complete-Settles :
      (intent : String) (r : Result Order) → Settles env base (after_complete intent r)
  unfolding after_complete
  after_complete-Settles intent (ok order) =
      Holds-bind _ _ _ (Untouched-call alone _) λ _. Untouched-commit alone
  after_complete-Settles intent (err no_rows) =
      Holds-bind _ _ _ (Untouched-call alone _)
        λ current. Holds-lift _ (λ w h. settled_answer _ w h)
  after_complete-Settles intent (err e) = refuse e

  after_fail-Settles : (r : Result Order) → Settles env base (after_fail r)
  unfolding after_fail
  after_fail-Settles (ok order) =
      Holds-bind _ _ _ (Untouched-call alone _) λ _. Untouched-commit alone
  after_fail-Settles (err no_rows) = Holds-return tt (λ _ _. tt)
  after_fail-Settles (err e) = refuse e

  release_each-Untouched : (os : List Order) → Keeps env base (release_each os)
  unfolding release_each
  release_each-Untouched [] = Holds-pure tt
  release_each-Untouched (o ∷ os) =
      Holds-bind _ _ _ (Untouched-call alone _) λ _. release_each-Untouched os

  after_expire-Settles : (os : List Order) → Settles env base (after_expire os)
  unfolding after_expire
  after_expire-Settles [] = Holds-return 0 (λ _ _. tt)
  after_expire-Settles (o ∷ os) =
      Holds-bind _ _ _ (release_each-Untouched (o ∷ os)) λ _. commit_and _

  reserve_and_create-Settles :
      (b : Bool) (params : ReserveParams) (c : ℕ) (product : StockedProduct)
      → Settles env base (reserve_and_create b params c product)
  unfolding reserve_and_create create reserve
  reserve_and_create-Settles true params c product =
      Holds-bind _ _ _ (Untouched-call alone _) λ order.
        Holds-bind _ _ _ (Holds-bind _ _ _ (Untouched-attempt alone _) or_out_of_stock-Untouched)
          λ _. commit_and order
  reserve_and_create-Settles false params c product =
      Holds-bind _ _ _ (Holds-bind _ _ _ (Untouched-attempt alone _) or_out_of_stock-Untouched)
        λ _. Holds-bind _ _ _ (Untouched-call alone _) λ order. commit_and order

module _ (env : Env) (alone : IsAlone env) (w : World) where
  -- Where a cancellation ends in an error, whatever call it was that failed, nothing has been
  -- committed: in surroundings where nobody else commits and every answer arrives.
  pub cancel_order-all_or_nothing :
      (id : ℕ) (claims : Claims) (e : Error)
      → (cancel_order id claims env w).0 ≡ err e
      → (cancel_order id claims env w).1.shared ≡ w.shared
  unfolding cancel_order
  cancel_order-all_or_nothing id claims = failed-Untouched _ w (
      Untouched-in_transaction alone _ (
        Holds-bind _ _ _ (Untouched-call alone _) λ existing.
          Holds-bind _ _ _ (check_owner-Untouched existing claims) λ _.
            Holds-bind _ _ _ (Untouched-attempt alone _) λ marked.
              Holds-bind _ _ _ (or_not_pending-Untouched marked)
                λ order. Holds-bind _ _ _ (Untouched-call alone _) λ _. commit_and alone order))

  -- The same for a payment that succeeded,
  pub fulfill_payment-all_or_nothing :
      (intent : String) (e : Error)
      → (fulfill_payment intent env w).0 ≡ err e
      → (fulfill_payment intent env w).1.shared ≡ w.shared
  unfolding fulfill_payment
  fulfill_payment-all_or_nothing intent = failed-Untouched _ w (
      Untouched-in_transaction alone _ (
        Holds-bind _ _ _ (Untouched-call alone _) λ existing.
          Holds-bind _ _ _ (Untouched-attempt alone _) (after_complete-Settles alone intent)))

  -- The same for a payment that failed,
  pub fail_payment-all_or_nothing :
      (intent : String) (e : Error)
      → (fail_payment intent env w).0 ≡ err e
      → (fail_payment intent env w).1.shared ≡ w.shared
  unfolding fail_payment
  fail_payment-all_or_nothing intent = failed-Untouched _ w (
      Untouched-in_transaction alone _ (
        Holds-bind _ _ _ (Untouched-call alone _)
          λ existing. Holds-bind _ _ _ (Untouched-attempt alone _) (after_fail-Settles alone)))

  -- The same for a batch of the sweeper: no order expires without its unit being released.
  pub sweep_expired-all_or_nothing :
      (batch_size : ℕ) (e : Error)
      → (sweep_expired batch_size env w).0 ≡ err e
      → (sweep_expired batch_size env w).1.shared ≡ w.shared
  unfolding sweep_expired
  sweep_expired-all_or_nothing batch_size = failed-Untouched _ w (
      Untouched-in_transaction alone _
        (Holds-bind _ _ _ (Untouched-call alone _) (after_expire-Settles alone)))

  -- The same for a reservation by either of the transactional arms, the link of the caller to a
  -- customer included.
  pub txn_reserve-all_or_nothing :
      (reserve_last : Bool) (params : ReserveParams) (e : Error)
      → (txn_reserve direct_resolve reserve_last params env w).0 ≡ err e
      → (txn_reserve direct_resolve reserve_last params env w).1.shared ≡ w.shared
  unfolding txn_reserve
  txn_reserve-all_or_nothing reserve_last params = failed-Untouched _ w (
      Untouched-in_transaction alone _ (
        Holds-bind _ _ _
          (direct_resolve-CustomerCalls
            (record {
              found = λ _. Untouched-call alone _;
              updated = λ _ _. Untouched-call alone _;
              linked = λ _ _. Untouched-call alone _;
              remembered = λ _ _ h. record { same = h.same };
            })
            params.claims)
          λ c.
            Holds-bind _ _ _ (Untouched-call alone _)
              (reserve_and_create-Settles alone reserve_last params c)))
