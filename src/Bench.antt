-- ===== src/Bench.antt =====
-- bench: the open-loop load generator, and what it makes of a run.
pub mod Command
pub mod Outcomes
pub mod Report
pub mod Recorder
pub mod Inventory
pub mod Validity
pub mod Workload
pub mod Dispatch
pub mod Arrivals
pub mod Seeding
pub mod Execution
