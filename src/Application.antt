-- ===== src/Application.antt =====
-- The use cases of internal/application.
pub mod Ports
pub mod Finalize
pub mod Ingest
pub mod Deliver
pub mod Alerts
pub mod Admin
pub mod Expire
