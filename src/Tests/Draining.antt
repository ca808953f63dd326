-- ===== src/Tests/Draining.antt =====
-- A round of the worker over two events: one completes an order, the other cannot be read.
use doorbust.Base.{◌≡◌, refl, some, [], ◌∷◌, arith, sum, true}
use doorbust.Store.{Db, ok}
use doorbust.Session.Calm.{calm, calm_turn, idle}
use doorbust.Queries.EventRows.{new_event, InsertStripeEventParams}
use doorbust.Payments.Worker.{drain}
use doorbust.Payments.Attempts.{all_left}
use doorbust.Payments.Drain.{drain-ends}
use doorbust.Tests.Shop.{paying_shop, plain_codec}

abbrev paid : InsertStripeEventParams
paid = record {
  id = "evt_1";
  type = "payment_intent.succeeded";
  payload = "pi_1";
  stripe_created_at = some 33;
}

abbrev unreadable : InsertStripeEventParams
unreadable = record paid { id = "evt_2"; payload = "" }

abbrev busy_shop : Db
busy_shop = record paying_shop {
  events = new_event unreadable (calm_turn 40 40) ∷ new_event paid (calm_turn 41 41) ∷ [];
}

ten_left : all_left 5 busy_shop.events ≡ 10
unfolding sum
ten_left = refl

drain-ends_example : (drain 11 plain_codec 5 (calm 50 50) (idle busy_shop)).0 ≡ ok true
drain-ends_example =
    drain-ends 5 (calm 50 50) (λ n db. refl) plain_codec 11 (idle busy_shop) (refl, (refl, tt))
      (rw ten_left (omega arith))
