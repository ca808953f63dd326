-- ===== src/Tests.antt =====
-- Runs of the model on a small shop, and the theorems at work on it.
pub mod Shop
mod Books
mod Transactions
mod Callers
mod Storefront
mod Inbox
mod Polling
mod Guards
mod Draining
mod Limits
mod Probes
mod Cached
mod Benching
mod Running
mod Entrances
mod Visitors
