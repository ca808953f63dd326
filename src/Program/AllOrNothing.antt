-- ===== src/Program/AllOrNothing.antt =====
-- The operations that move units of stock in one transaction are all or nothing.
use doorbust.Base.{ℕ, String, Bool, ◌≡◌, refl, ap, ◌∙◌}
use doorbust.Store.{Result, ok, err, Error}
use doorbust.Session.{World, Env, M, pure, continue, ◌>>=◌, ◌>>◌}
use doorbust.Session.Atomic.{IsAlone}
use doorbust.Auth.{Claims}
use doorbust.Customers.{direct_resolve}
use doorbust.Orders.Strategies.{ReserveParams, txn_reserve}
use doorbust.Orders.Service.{cancel_order, fulfill_payment, fail_payment, sweep_expired}
use doorbust.Orders.Atomic.{
  cancel_order-all_or_nothing, fulfill_payment-all_or_nothing, fail_payment-all_or_nothing,
  sweep_expired-all_or_nothing, txn_reserve-all_or_nothing,
}
use doorbust.Products.{CreateProductParams, create_product}
use doorbust.Products.Creation.{create_product-all_or_nothing}

-- The operations that do all their writing in one transaction of their own. The worker's process_next is
-- not among them: what an event applies is committed before the event is marked.
pub data Transaction : Type 0 where
  cancel : ℕ → Claims → Transaction
  fulfill fail_payment_of : String → Transaction
  expire : ℕ → Transaction
  place : Bool → ReserveParams → Transaction
  add : CreateProductParams → Transaction

abbrev pub carry_out : Transaction → M (Unit {0})
carry_out (cancel id claims) = cancel_order id claims >> pure tt
carry_out (fulfill intent) = fulfill_payment intent
carry_out (fail_payment_of intent) = fail_payment intent
carry_out (expire batch_size) = sweep_expired batch_size >> pure tt
carry_out (place reserve_last params) = txn_reserve direct_resolve reserve_last params >> pure tt
carry_out (add params) = create_product params >> pure tt

ok_not_err : {A : Type 0} (a : A) (e : Error) → ok a ≡ err e → ⊥
ok_not_err a e h = cc

-- An answer that is thrown away leaves the error and the world as they are.
answered_or :
    {A : Type 0} (r : Result A) (env : Env) (w : World) (e : Error)
    → (continue r (λ _. pure tt) env w).0 ≡ err e
    → (r ≡ err e) × ((continue r (λ _. pure tt) env w).1 ≡ w)
unfolding pure
answered_or (ok a) env w e h = absurd (ok_not_err tt e h)
answered_or (err e') env w e h = (cc, refl)

module _ {A : Type 0} (m : M A) (env : Env) (w : World) where
  dropped :
      ((e : Error) → (m env w).0 ≡ err e → (m env w).1.shared ≡ w.shared)
      → (e : Error) → ((m >> pure tt) env w).0 ≡ err e
      → ((m >> pure tt) env w).1.shared ≡ w.shared
  unfolding ◌>>=◌
  dropped all e h =
      let (failed, same) = answered_or (m env w).0 env (m env w).1 e h in
      ap (λ (v : World). v.shared) same ∙ all e failed

-- Where one of them ends in an error, whatever call it was that failed, nothing has been committed: in
-- surroundings where nobody else commits and no answer of a call that was carried out is lost. Where the
-- answer of a COMMIT is lost, the error does not say whether it was carried out.
pub carry_out-all_or_nothing :
    (env : Env)
    → IsAlone env
    → (t : Transaction) (w : World) (e : Error) → (carry_out t env w).0 ≡ err e
    → (carry_out t env w).1.shared ≡ w.shared
carry_out-all_or_nothing env alone (cancel id claims) w =
    dropped (cancel_order id claims) env w (cancel_order-all_or_nothing env alone w id claims)
carry_out-all_or_nothing env alone (fulfill intent) w =
    fulfill_payment-all_or_nothing env alone w intent
carry_out-all_or_nothing env alone (fail_payment_of intent) w =
    fail_payment-all_or_nothing env alone w intent
carry_out-all_or_nothing env alone (expire batch_size) w =
    dropped (sweep_expired batch_size) env w (sweep_expired-all_or_nothing env alone w batch_size)
carry_out-all_or_nothing env alone (place reserve_last params) w =
    dropped (txn_reserve direct_resolve reserve_last params) env w
      (txn_reserve-all_or_nothing env alone w reserve_last params)
carry_out-all_or_nothing env alone (add params) w =
    dropped (create_product params) env w (create_product-all_or_nothing env alone w params)
