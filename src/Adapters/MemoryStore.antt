-- ===== src/Adapters/MemoryStore.antt =====
-- internal/adapters/state/memory/store.go, and what its operations keep.
pub mod State
pub mod DeadLetters
pub mod Reads
pub mod Queue
pub mod Summary
pub mod Drain
pub mod Counts
pub mod Port
pub mod Due
