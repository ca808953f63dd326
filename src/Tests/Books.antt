-- ===== src/Tests/Books.antt =====
-- The books of a product.
use doorbust.Base.{◌≡◌, refl, some, sum, repeats, All}
use doorbust.Store.{ok, awaiting_payment}
use doorbust.Session.Calm.{calm, idle}
use doorbust.Ledger.{IsBalanced}
use doorbust.Ledger.Actions.{Rely}
use doorbust.Ledger.Calm.{calm-RelyOn}
use doorbust.Orders.Strategies.{strategy_by_name}
use doorbust.Orders.Service.{fulfill_payment}
use doorbust.Orders.Fulfilment.{fulfill_payment-completes, fulfill_payment-idempotent, Fulfilled}
use doorbust.Program.{boot, history}
use doorbust.Program.NoOversell.{StaysSound, history-StaysSound, history-Rely}
use doorbust.Tests.Shop.{shop, paying_shop, config, arm, requests, order_in, ann_row}

pub booted : boot config ≡ some arm
unfolding boot strategy_by_name
booted = refl

pub shop-IsBalanced : IsBalanced 7 shop
unfolding sum repeats
shop-IsBalanced = record { matched = refl; sound = refl }

paying_shop-IsBalanced : IsBalanced 7 paying_shop
unfolding sum repeats
paying_shop-IsBalanced = record { matched = refl; sound = refl }

relies : All (λ r. Rely 7 r.0) requests
relies = (
  calm-RelyOn 40 11,
  (
    calm-RelyOn 50 13,
    (calm-RelyOn 51 14, (calm-RelyOn 52 15, (calm-RelyOn 60 16, (calm-RelyOn 100 12, tt)))),
  ),
)

history-StaysSound_example : StaysSound 7 shop (history config arm requests (idle shop)).shared
history-StaysSound_example =
    history-StaysSound 7 config arm booted requests relies (idle shop) shop-IsBalanced

history-Rely_example : Rely 7 (λ n. record (calm 40 50 n) {
  meanwhile = λ db. (history config arm requests (idle db)).shared;
})
history-Rely_example = history-Rely 7 config arm booted (calm 40 50) (λ n. requests) (λ n. relies)

fulfill_payment-completes_example :
    ((fulfill_payment "pi_1" (calm 50 50) (idle paying_shop)).0 ≡ ok tt)
    × Fulfilled 7 "pi_1"
        (order_in awaiting_payment (some "pi_1"))
        paying_shop
        (fulfill_payment "pi_1" (calm 50 50) (idle paying_shop)).1.shared
fulfill_payment-completes_example =
    fulfill_payment-completes 50 50 paying_shop "pi_1" (order_in awaiting_payment (some "pi_1"))
      ann_row paying_shop-IsBalanced refl refl refl

fulfill_payment-idempotent_example :
    let after = (fulfill_payment "pi_1" (calm 50 50) (idle paying_shop)).1.shared in
    ((fulfill_payment "pi_1" (calm 70 70) (idle after)).0 ≡ ok tt)
    × ((fulfill_payment "pi_1" (calm 70 70) (idle after)).1.shared ≡ after)
fulfill_payment-idempotent_example =
    fulfill_payment-idempotent 50 50 paying_shop "pi_1" (order_in awaiting_payment (some "pi_1"))
      ann_row paying_shop-IsBalanced refl refl refl 70 70
