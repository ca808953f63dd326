-- ===== src/Tests/Probes.antt =====
-- The probe of a server whose poller fails from the start.
use doorbust.Base.{◌-◌, ◌*◌, ◌≤◌, ◌≡◌, ◌↔◌, ◌⊎◌, refl, true, none, some}
use doorbust.Readiness.{PollerState, poller_status, poller_grace, poller_failing, ready_handler}
use doorbust.Readiness.Staleness.{ready_handler-code}

abbrev failing_poller : PollerState
failing_poller = record { last_success = none; started_at = 1000; interval = 10000 }

after_a_minute :
    ready_handler true (some failing_poller) 61001
    ≡ record { code = 503; is_database_ok = true; stripe_poller = poller_failing }
unfolding ready_handler poller_status poller_grace
after_a_minute = refl

without_poller : (ready_handler true none 61001).code ≡ 200
unfolding ready_handler
without_poller = refl

ready_handler-code_example :
    ((ready_handler true (some failing_poller) 40000).code ≡ 200)
    ↔ ((true ≡ true) × ((40000 - 1000 ≤ 5 * 10000) ⊎ (40000 - 1000 ≤ 30000)))
ready_handler-code_example = ready_handler-code true failing_poller 40000
