-- ===== src/Tests/Polling.antt =====
-- A poll of two events, and one that breaks off.
use doorbust.Base.{◌<◌, ◌≡◌, refl, some, none, Option, List, [], ◌∷◌, arith}
use doorbust.Store.{ok, err, gateway_failed}
use doorbust.Queries.EventRows.{insert_stripe_event, latest_stripe_event_created_at, latest}
use doorbust.Session.{call, time_now, ◌>>=◌}
use doorbust.Session.Calm.{calm, idle}
use doorbust.Payments.Poller.{ListedEvent, Poller, record_one, record_all, poll, since_for}
use doorbust.Payments.Poller.Window.{IsPolled, poll-IsPolled, poll-gap}
use doorbust.Tests.Shop.{shop}

abbrev succeeded : ListedEvent
succeeded = record {
  id = "evt_2";
  type = "payment_intent.succeeded";
  created = 900;
  raw = some "{}";
}

abbrev canceled : ListedEvent
canceled = record { id = "evt_1"; type = "payment_intent.canceled"; created = 100; raw = some "{}" }

abbrev listing : List (Option ListedEvent) → Poller
listing events = record {
  overlap = 300;
  initial_lookback = 3600;
  list = λ since. events;
  marshal = λ e raw. some raw;
}

two_recorded :
    (poll (listing (some succeeded ∷ some canceled ∷ [])) (calm 5000 50) (idle shop)).0 ≡ ok (2, 2)
unfolding poll record_all record_one insert_stripe_event latest_stripe_event_created_at call
    time_now ◌>>=◌
two_recorded = refl

poll-IsPolled_example :
    IsPolled
      (listing (some succeeded ∷ some canceled ∷ []))
      5000
      shop
      (poll (listing (some succeeded ∷ some canceled ∷ [])) (calm 5000 50) (idle shop)).1.shared
poll-IsPolled_example =
    poll-IsPolled (calm 5000 50) (λ n db. refl) (listing (some succeeded ∷ some canceled ∷ []))
      (idle shop) (2, 2) two_recorded

-- The list breaks off before `canceled`.
poll-gap_example :
    ((poll (listing (some succeeded ∷ none ∷ [])) (calm 5000 50) (idle shop)).0
      ≡ err gateway_failed)
    × (100
        < since_for
            (listing (some succeeded ∷ none ∷ []))
            (latest
              (poll
                (listing (some succeeded ∷ none ∷ []))
                (calm 5000 50)
                (idle shop)).1.shared.events)
            6000)
poll-gap_example =
    poll-gap 5000 50 shop (listing (some succeeded ∷ none ∷ [])) succeeded "{}" refl refl refl 100
      6000 (omega arith)
