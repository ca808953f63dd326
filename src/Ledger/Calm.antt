-- ===== src/Ledger/Calm.antt =====
-- Surroundings in which nothing else happens keep every product's books in order.
use doorbust.Base.{ℕ}
use doorbust.Session.Calm.{calm}
use doorbust.Ledger.{Account}
use doorbust.Ledger.Actions.{RelyOn, Drift-refl}

pub calm-RelyOn : {p : Account} (now nextval : ℕ) → RelyOn p (calm now nextval)
calm-RelyOn now nextval = record { others = λ n db sound. Drift-refl sound }
