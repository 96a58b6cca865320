-- ===== src/Notification.antt =====
-- src/notification.rs: the normalized Notification model.
pub mod Ingress
pub mod Plain
pub mod Path
pub mod Source
pub mod Draft
pub mod Update
pub mod Record
mod Tests
