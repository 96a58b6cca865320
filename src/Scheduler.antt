-- ===== src/Scheduler.antt =====
-- src/daemon/mod.rs: the scheduler of live Notifications that a daemon owns.
pub mod State
pub mod Exec
pub mod Queues
pub mod Lifecycle
pub mod Operations
pub mod Order
pub mod Invariant
mod Tests
