-- ===== src/Adapters/PebbleStore.antt =====
-- internal/adapters/state/pebble/store.go: the durable store over an ordered key-value engine. Keys
-- are its key spaces, Engine what Pebble provides, Flows the operations on open flows with their
-- index of deadlines, Records those on the outbox and the dead letters, Reads those outside a
-- transaction.
pub mod Keys
pub mod Engine
pub mod Flows
pub mod Records
pub mod Reads
pub mod Reached
pub mod Port
