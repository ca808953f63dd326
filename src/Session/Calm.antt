-- ===== src/Session/Calm.antt =====
-- Surroundings in which nothing else happens: no other commit, no lost call, no lock.
use doorbust.Base.{ℕ, false, none}
use doorbust.Store.{Db}
use doorbust.Queries.Turns.{Turn, fine}
use doorbust.Session.Actions.{World, Env}

abbrev pub calm_turn : ℕ → ℕ → Turn
calm_turn now nextval = record {
  fault = fine;
  meanwhile = λ db. db;
  now = now;
  nextval = nextval;
  is_locked_order = λ _. false;
  is_locked_event = λ _. false;
}

abbrev pub calm : ℕ → ℕ → Env
calm now nextval n = calm_turn now nextval

-- No transaction is open.
abbrev pub idle : Db → World
idle db = record { shared = db; view = db; aborted = false; at = 0; ids = λ _. none }
