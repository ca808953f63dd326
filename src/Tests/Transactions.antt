-- ===== src/Tests/Transactions.antt =====
-- Orders that are cancelled, paid for and refused, and transactions that a failed call undoes.
use doorbust.Base.{
  ◌<◌, arith, true, ℕ, ◌==◌, ◌≡◌, refl, some, none, true, false, sum, repeats, update_first,
  if◌then◌else◌, Bool-cases, inl, inr,
}
use doorbust.Store.{Order, ok, err, pending, awaiting_payment, cancelled, failed, connection_lost}
use doorbust.Queries.Turns.{fine, refused}
use doorbust.Queries.StockRows.{reserve_stock, release_stock}
use doorbust.Queries.OrderRows.{
  has_intent, find_order_by_id, find_order_by_payment_intent_id, cancel_pending_order,
  complete_order, fail_order,
}
use doorbust.Queries.ProductRows.{find_product_by_id}
use doorbust.Queries.CustomerRows.{find_customer_by_sub}
use doorbust.Queries.Expiry.{
  expire_orders, expire_rows, picked_orders, sort_by_expiry, insert_by_expiry,
}
use doorbust.Session.{Env, call, commit, in_transaction, ◌>>=◌, attempt}
use doorbust.Session.Calm.{calm, calm_turn, idle}
use doorbust.Session.Atomic.{IsAlone}
use doorbust.Customers.{direct_resolve, link, link_loop, link_once, after_try, by_sub}
use doorbust.Ledger.{IsBalanced}
use doorbust.Orders.Strategies.{txn_reserve, reserve_and_create, reserve, create, or_out_of_stock}
use doorbust.Orders.Service.{
  fulfill_payment, fail_payment, cancel_order, sweep_expired, check_owner, owns, or_not_pending,
  after_complete, after_fail, after_expire, release_each,
}
use doorbust.Orders.Payment.{IsAnswered, fulfill_payment-classified}
use doorbust.Orders.Release.{Released, cancel_order-releases, fail_payment-releases}
use doorbust.Program.AllOrNothing.{Transaction, carry_out, carry_out-all_or_nothing}
use doorbust.Orders.Sweeper.{sweep_all}
use doorbust.Orders.Sweeper.Count.{all_live, shared_ids}
use doorbust.Orders.Sweeper.Drain.{sweep_all-ends}
use doorbust.Tests.Shop.{shop, paying_shop, shop_with, order_in, ann, ann_row, ask}

shop-IsBalanced : IsBalanced 7 shop
unfolding sum repeats
shop-IsBalanced = record { matched = refl; sound = refl }

paying_shop-IsBalanced : IsBalanced 7 paying_shop
unfolding sum repeats
paying_shop-IsBalanced = record { matched = refl; sound = refl }

-- The payment of an order that has been cancelled meanwhile.
fulfill_payment-classified_example :
    let late = order_in cancelled (some "pi_1") in
    IsAnswered late (fulfill_payment "pi_1" (calm 50 50) (idle (shop_with late))).0
    × ((fulfill_payment "pi_1" (calm 50 50) (idle (shop_with late))).1.shared ≡ shop_with late)
unfolding sum repeats
fulfill_payment-classified_example =
    fulfill_payment-classified 50 50 (shop_with (order_in cancelled (some "pi_1"))) "pi_1"
      (order_in cancelled (some "pi_1")) ann_row refl refl refl refl

owned_by_ann : owns (some "sub-ann") "ann@example.com" ann ≡ true
unfolding owns
owned_by_ann = refl

cancel_order-releases_example :
    ((y : Order) × ((cancel_order 10 ann (calm 50 50) (idle shop)).0 ≡ ok y))
    × Released
        (λ x. x.id == 10)
        cancelled
        (order_in pending none)
        shop
        (cancel_order 10 ann (calm 50 50) (idle shop)).1.shared
cancel_order-releases_example =
    cancel_order-releases 50 50 shop (order_in pending none) ann_row shop-IsBalanced refl ann refl
      owned_by_ann refl

fail_payment-releases_example :
    ((fail_payment "pi_1" (calm 50 50) (idle paying_shop)).0 ≡ ok tt)
    × Released
        (has_intent "pi_1")
        failed
        (order_in awaiting_payment (some "pi_1"))
        paying_shop
        (fail_payment "pi_1" (calm 50 50) (idle paying_shop)).1.shared
fail_payment-releases_example =
    fail_payment-releases 50 50 paying_shop (order_in awaiting_payment (some "pi_1")) ann_row
      paying_shop-IsBalanced refl "pi_1" refl refl

-- The call with this number is refused.
abbrev flaky : ℕ → Env
flaky k n = record (calm_turn 100 50) { fault = if n == k then refused else fine }

flaky-IsAlone : (k : ℕ) → IsAlone (flaky k)
flaky-IsAlone k = record {
  nobody = λ n db. refl;
  answered = λ n. elim (Bool-cases (n == k)) [ inl e ↦ rw e refl | inr e ↦ rw e refl ];
}

-- The COMMIT of a cancellation is refused.
cancel_order-fails : (cancel_order 10 ann (flaky 4) (idle shop)).0 ≡ err connection_lost
unfolding cancel_order check_owner owns or_not_pending find_order_by_id cancel_pending_order
    release_stock update_first in_transaction call commit ◌>>=◌ attempt
cancel_order-fails = refl

-- The UPDATE of the stock is refused, after that of the order.
fulfill_payment-fails :
    (fulfill_payment "pi_1" (flaky 3) (idle paying_shop)).0 ≡ err connection_lost
unfolding fulfill_payment after_complete find_order_by_payment_intent_id complete_order update_first
    in_transaction call ◌>>=◌ attempt
fulfill_payment-fails = refl

fail_payment-fails : (fail_payment "pi_1" (flaky 3) (idle paying_shop)).0 ≡ err connection_lost
unfolding fail_payment after_fail find_order_by_payment_intent_id fail_order update_first
    in_transaction call ◌>>=◌ attempt
fail_payment-fails = refl

sweep_expired-fails : (sweep_expired 100 (flaky 2) (idle shop)).0 ≡ err connection_lost
unfolding sweep_expired after_expire release_each expire_orders expire_rows picked_orders
    sort_by_expiry insert_by_expiry in_transaction call ◌>>=◌
sweep_expired-fails = refl

-- The INSERT of the order is refused, after the reservation of a unit.
txn_reserve-fails :
    (txn_reserve direct_resolve false ask (flaky 4) (idle shop)).0 ≡ err connection_lost
unfolding txn_reserve reserve_and_create reserve create or_out_of_stock direct_resolve link
    link_loop link_once after_try by_sub find_customer_by_sub find_product_by_id reserve_stock
    update_first in_transaction call ◌>>=◌ attempt
txn_reserve-fails = refl

carry_out-fails :
    (carry_out (Transaction.place false ask) (flaky 4) (idle shop)).0 ≡ err connection_lost
unfolding ◌>>=◌
carry_out-fails = rw txn_reserve-fails refl

carry_out-all_or_nothing_example :
    (carry_out (Transaction.place false ask) (flaky 4) (idle shop)).1.shared ≡ shop
carry_out-all_or_nothing_example =
    carry_out-all_or_nothing (flaky 4) (flaky-IsAlone 4) (Transaction.place false ask) (idle shop)
      connection_lost carry_out-fails

no_shared_ids : shared_ids shop ≡ 0
unfolding sum repeats
no_shared_ids = refl

one_live : all_live shop < 2
unfolding sum
one_live = omega arith

sweep_all-ends_example : (sweep_all 2 100 (flaky 7) (idle shop)).0 ≡ ok true
sweep_all-ends_example =
    sweep_all-ends (flaky 7) (λ n db. refl) 100 (omega arith) 2 (idle shop) no_shared_ids one_live
