-- ===== src/Domain.antt =====
-- The domain packages of internal/domain.
pub mod Instant
pub mod Event
pub mod DocPath
pub mod Rule
pub mod Flow
pub mod Outbox
pub mod IndexName
pub mod Projection
