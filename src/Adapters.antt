-- ===== src/Adapters.antt =====
-- The adapters of internal/adapters that keep state of their own.
pub mod MemoryStore
pub mod Registry
pub mod Passthrough
pub mod OpenSearch
pub mod PebbleStore
pub mod Config
