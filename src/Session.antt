-- ===== src/Session.antt =====
-- src/render.rs: the renderer sessions of a daemon.
pub mod State
pub mod Credentials
pub mod Operations
pub mod Streams
pub mod Matched
pub mod Invariant
pub mod Expire
pub mod Redeem
pub mod Once
pub mod Keeps
pub mod Issued
pub mod Create
pub mod Launch
pub mod Runs
mod Tests
