-- ===== src/Orders.antt =====
-- The order lifecycle (internal/orders).
pub mod Strategies
pub mod Service
pub mod Idempotency
pub mod Atomic
pub mod ByName
pub mod Sweeper
pub mod Handler
pub mod Transitions
pub mod Release
pub mod Access
pub mod Remembered
pub mod Replay
pub mod Once
pub mod Payment
pub mod Arms
pub mod Fulfilment
pub mod Balance
pub mod ReserveBalance
pub mod ServiceBalance
pub mod IdempotencyBalance
