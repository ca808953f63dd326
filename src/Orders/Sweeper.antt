-- ===== src/Orders/Sweeper.antt =====
-- internal/orders/sweeper.go: the backlog is drained in batches.
pub mod Count
pub mod Drain
use doorbust.Base.{ℕ, zero, suc, Bool, true, false, ltb, if◌then◌else◌}
use doorbust.Store.{Result, ok, err}
use doorbust.Session.{M, pure, attempt, ◌>>=◌}
use doorbust.Orders.Service.{sweep_expired}

-- An error is logged and ends the round; a short batch means that the backlog is drained. The answer
-- says whether the loop has ended.
pub after_sweep : M Bool → ℕ → Result ℕ → M Bool
after_sweep again batch_size (err e) = pure true
after_sweep again batch_size (ok released) = if ltb released batch_size then pure true else again

-- The loop of sweepAll, for as long as the service is not shut down; `fuel` bounds its rounds.
pub sweep_all : ℕ → ℕ → M Bool
sweep_all zero batch_size = pure false
sweep_all (suc fuel) batch_size =
    attempt (sweep_expired batch_size) >>= after_sweep (sweep_all fuel batch_size) batch_size
