-- ===== src/Queries/EventRows.antt =====
-- The statements on `stripe_events`.
use doorbust.Base.{
  ℕ, ◌+◌, String, Bool, Option, none, some, List, [], ◌∷◌, ◌++◌, not, ◌&&◌, ltb, leb, str_eq,
  if◌then◌else◌, find, update_first,
}
use doorbust.Store.{Db, StripeEvent, Result, ok, err, no_rows}
use doorbust.Queries.Turns.{Query, Turn}
use doorbust.Queries.OrderRows.{is_found}

abbrev pub has_event_id : String → StripeEvent → Bool
has_event_id id e = str_eq e.id id

pub record InsertStripeEventParams : Type 0 where
  pub id : String
  pub type : String
  pub payload : String
  pub stripe_created_at : Option ℕ

abbrev pub new_event : InsertStripeEventParams → Turn → StripeEvent
new_event p turn = record {
  id = p.id;
  type = p.type;
  payload = p.payload;
  received_at = turn.now;
  processed_at = none;
  attempts = 0;
  last_error = none;
  stripe_created_at = p.stripe_created_at;
}

-- The number of rows inserted: ON CONFLICT (id) DO NOTHING.
unfoldable pub insert_stripe_event : InsertStripeEventParams → Query ℕ
insert_stripe_event p turn db =
    if is_found (find (has_event_id p.id) db.events)
    then (ok 0, db)
    else (ok 1, record db { events = db.events ++ new_event p turn ∷ [] })

-- max() skips the rows without a value, and is NULL where none is left.
abbrev pub later : Option ℕ → Option ℕ → Option ℕ
later none b = b
later (some a) none = some a
later (some a) (some b) = if ltb a b then some b else some a

unfoldable pub latest : List StripeEvent → Option ℕ
latest [] = none
latest (e ∷ es) = later e.stripe_created_at (latest es)

unfoldable pub latest_stripe_event_created_at : Query (Option ℕ)
unfolding latest
latest_stripe_event_created_at turn db = (ok (latest db.events), db)

abbrev pub is_claimable : ℕ → Turn → StripeEvent → Bool
is_claimable max_attempts turn e =
    not (is_found e.processed_at) && ltb e.attempts max_attempts && not (turn.is_locked_event e.id)

abbrev pub earlier : StripeEvent → Option StripeEvent → StripeEvent
earlier e none = e
earlier e (some e') = if leb e.received_at e'.received_at then e else e'

-- ORDER BY received_at LIMIT 1 among the rows that pass.
unfoldable pub earliest : (StripeEvent → Bool) → List StripeEvent → Option StripeEvent
earliest t [] = none
earliest t (e ∷ es) = let rest = earliest t es in if t e then some (earlier e rest) else rest

abbrev pub found_event : Db → Option StripeEvent → Result StripeEvent × Db
found_event db none = (err no_rows, db)
found_event db (some e) = (ok e, db)

unfoldable pub claim_next_stripe_event : ℕ → Query StripeEvent
unfolding earliest
claim_next_stripe_event max_attempts turn db =
    found_event db (earliest (is_claimable max_attempts turn) db.events)

abbrev pub written_events : Db → Option (StripeEvent × List StripeEvent) → Db
written_events db none = db
written_events db (some (e, rows)) = record db { events = rows }

unfoldable pub mark_stripe_event_processed : String → Option String → Query (Unit {0})
mark_stripe_event_processed id last_error turn db = (
  ok tt,
  written_events db (
      update_first (has_event_id id)
        (λ e. record e {
          processed_at = some turn.now;
          attempts = e.attempts + 1;
          last_error = last_error;
        })
        db.events),
)

unfoldable pub mark_stripe_event_failed : String → Option String → Query (Unit {0})
mark_stripe_event_failed id last_error turn db = (
  ok tt,
  written_events db (
      update_first (has_event_id id)
        (λ e. record e { attempts = e.attempts + 1; last_error = last_error }) db.events),
)
