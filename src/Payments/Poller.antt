-- ===== src/Payments/Poller.antt =====
-- internal/payments/poller.go: the events of the processor, pulled into the inbox.
pub mod Recording
pub mod Window
use doorbust.Base.{ℕ, ◌+◌, ◌-◌, String, Option, none, some, List, [], ◌∷◌}
use doorbust.Store.{gateway_failed}
use doorbust.Session.{M, pure, fail, ◌>>=◌, pool, call, time_now}
use doorbust.Queries.EventRows.{insert_stripe_event, latest_stripe_event_created_at}

pub record ListedEvent : Type 0 where
  pub id : String
  pub type : String
  pub created : ℕ
  pub raw : Option String

-- The settings of the poller, the list of the processor from a time on (`none` is an error, which ends
-- it), and the JSON encoder.
pub record Poller : Type 0 where
  pub overlap : ℕ
  pub initial_lookback : ℕ
  pub list : ℕ → List (Option ListedEvent)
  pub marshal : ListedEvent → String → Option String

-- The lower bound of the next fetch; times are larger than the settings.
abbrev pub since_for : Poller → Option ℕ → ℕ → ℕ
since_for p none now = now - p.initial_lookback
since_for p (some cursor) now = cursor - p.overlap

-- An event without a data object has no payload.
abbrev pub payload_of : Poller → ListedEvent → Option String → Option String
payload_of p e none = none
payload_of p e (some raw) = p.marshal e raw

abbrev pub event_payload : Poller → ListedEvent → Option String
event_payload p e = payload_of p e e.raw

-- A malformed event is passed over.
unfoldable pub record_one : ListedEvent → Option String → M ℕ
record_one e none = pure 0
record_one e (some payload) = call pool (
    insert_stripe_event
      (record { id = e.id; type = e.type; payload = payload; stripe_created_at = some e.created }))

-- How many have been fetched, and how many of them were new.
unfoldable pub record_all : Poller → List (Option ListedEvent) → ℕ → ℕ → M (ℕ × ℕ)
record_all p [] fetched inserted = pure (fetched, inserted)
record_all p (none ∷ rest) fetched inserted = fail gateway_failed
record_all p (some e ∷ rest) fetched inserted = do
  rows ← record_one e (event_payload p e)
  record_all p rest (fetched + 1) (inserted + rows)

unfoldable pub poll : Poller → M (ℕ × ℕ)
poll p = do
  cursor ← call pool latest_stripe_event_created_at
  now ← time_now
  record_all p (p.list (since_for p cursor now)) 0 0
