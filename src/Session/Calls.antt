-- ===== src/Session/Calls.antt =====
-- The calls: a statement on the pool or in the open transaction, Begin, Commit and Rollback.
use doorbust.Base.{ℕ, ◌+◌, Bool, true, false}
use doorbust.Store.{Db, Result, ok, err, no_rows, in_failed_transaction, connection_lost}
use doorbust.Queries.Turns.{Fault, Turn, Query, fine, refused, lost}
use doorbust.Session.Actions.{World, M, ◌>>◌}

-- A repo.Querier runs its statements on the pool, each committed at once, or in a transaction.
pub data Querier : Type 0 where
  pool tx : Querier

-- The next turn: others commit, and the counter goes on.
abbrev pub arrive : Turn → World → World
arrive t w = record w { shared = t.meanwhile w.shared; view = t.meanwhile w.view; at = w.at + 1 }

-- After an error of Postgres (not after an answer of no rows) a transaction is out of use.
abbrev pub breaks : {A : Type 0} → Result A → Bool
breaks (ok _) = false
breaks (err no_rows) = false
breaks (err _) = true

module _ {A : Type 0} where
  -- On the pool a statement is committed at once.
  abbrev pub on_pool : Fault → Result A × Db → World → Result A × World
  on_pool fine (r, db) w = (r, record w { shared = db })
  on_pool refused _ w = (err connection_lost, w)
  on_pool lost (r, db) w = (err connection_lost, record w { shared = db })

  -- In a transaction it changes what the transaction sees.
  abbrev pub in_view : Bool → Fault → Result A × Db → World → Result A × World
  in_view true _ _ w = (err in_failed_transaction, w)
  in_view false fine (r, db) w = (r, record w { view = db; aborted = breaks r })
  in_view false refused _ w = (err connection_lost, record w { aborted = true })
  in_view false lost _ w = (err connection_lost, record w { aborted = true })

  unfoldable pub call : Querier → Query A → M A
  call pool q env w = let t = env w.at in let w' = arrive t w in on_pool t.fault (q t w'.shared) w'
  call tx q env w =
      let t = env w.at in let w' = arrive t w in in_view w'.aborted t.fault (q t w'.view) w'

abbrev pub opened : World → World
opened w = record w { view = w.shared; aborted = false }

abbrev pub begun : Fault → World → Result (Unit {0}) × World
begun fine w = (ok tt, opened w)
begun _ w = (err connection_lost, w)

unfoldable pub begin : M (Unit {0})
begin env w = let t = env w.at in begun t.fault (arrive t w)

abbrev pub committed : World → World
committed w = record w { shared = w.view }

abbrev pub settled : Bool → Fault → World → Result (Unit {0}) × World
settled true _ w = (err in_failed_transaction, w)
settled false fine w = (ok tt, committed w)
settled false refused w = (err connection_lost, w)
settled false lost w = (err connection_lost, committed w)

unfoldable pub commit : M (Unit {0})
commit env w = let t = env w.at in let w' = arrive t w in settled w'.aborted t.fault w'

-- defer tx.Rollback(ctx): after a commit there is nothing left to undo.
unfoldable pub with_rollback : {A : Type 0} → M A → M A
with_rollback m env w = let (r, w') = m env w in (r, opened w')

unfoldable pub in_transaction : {A : Type 0} → M A → M A
unfolding begin with_rollback
in_transaction body = begin >> with_rollback body

-- time.Now()
unfoldable pub time_now : M ℕ
time_now env w = (ok (env w.at).now, w)
