-- ===== src/Payments.antt =====
-- internal/payments: the inbox of the events of the processor, and the worker that applies them.
pub mod Gateway
pub mod Webhook
pub mod Events
pub mod Worker
pub mod Attempts
pub mod Kept
pub mod Marking
pub mod Drain
pub mod Poller
pub mod Routing
pub mod Balance
