-- ===== src/Readiness.antt =====
-- cmd/ready.go: whether the server can serve traffic. Times and durations are in milliseconds.
pub mod Staleness
use doorbust.Base.{
  ℕ, ◌-◌, ◌*◌, Bool, true, false, Option, none, some, ltb, leb, ◌&&◌, if◌then◌else◌,
}

abbrev pub stale_poll_multiple : ℕ
stale_poll_multiple = 5

abbrev pub min_poller_grace : ℕ
min_poller_grace = 30000

pub data PollerStatus : Type 0 where
  poller_disabled poller_starting poller_failing poller_stale poller_ok : PollerStatus

-- The last success, where there has been one; the start; now; and the time of grace.
unfoldable pub poller_status : Option ℕ → ℕ → ℕ → ℕ → PollerStatus × Bool
poller_status none started_at now grace =
    if leb (now - started_at) grace then (poller_starting, true) else (poller_failing, false)
poller_status (some last) started_at now grace =
    if ltb grace (now - last) then (poller_stale, false) else (poller_ok, true)

unfoldable pub poller_grace : ℕ → ℕ
poller_grace interval =
    if ltb min_poller_grace (stale_poll_multiple * interval)
    then stale_poll_multiple * interval
    else min_poller_grace

-- What the probe reads of a poller.
pub record PollerState : Type 0 where
  pub last_success : Option ℕ
  pub started_at : ℕ
  pub interval : ℕ

pub record ReadyResponse : Type 0 where
  pub code : ℕ
  pub is_database_ok : Bool
  pub stripe_poller : PollerStatus

abbrev pub poller_part : Option PollerState → ℕ → PollerStatus × Bool
poller_part none now = (poller_disabled, true)
poller_part (some p) now = poller_status p.last_success p.started_at now (poller_grace p.interval)

abbrev pub code_of : Bool → ℕ
code_of ready = if ready then 200 else 503

-- The answer to the ping, the poller where there is one, and the time.
unfoldable pub ready_handler : Bool → Option PollerState → ℕ → ReadyResponse
ready_handler ping poller now =
    let (status, poller_ready) = poller_part poller now in
    record { code = code_of (ping && poller_ready); is_database_ok = ping; stripe_poller = status }
