-- ===== src/Queries/Turns.antt =====
-- What the surroundings contribute to one call of the database.
use doorbust.Base.{ℕ, Bool, String}
use doorbust.Store.{Db, Result}

-- What becomes of the call: it is carried out and answered; it is never carried out; it is carried
-- out, and its answer is lost. In the last two cases the caller sees an error.
pub data Fault : Type 0 where
  fine refused lost : Fault

pub record Turn : Type 0 where
  pub fault : Fault
  -- what other transactions have committed since the call before
  pub meanwhile : Db → Db
  -- the clock, and the next value of the sequence that an INSERT draws its id from
  pub now : ℕ
  pub nextval : ℕ
  -- the orders and events on which another transaction holds a lock
  pub is_locked_order : ℕ → Bool
  pub is_locked_event : String → Bool

abbrev pub Query : Type 0 → Type 0
Query A = Turn → Db → Result A × Db
