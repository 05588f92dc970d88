-- ===== src/Examples.antt =====
-- The theorems at concrete inputs.
pub mod Data
mod Paths
mod Flows
mod Stores
mod Adapters
mod Services
mod Sweep
mod Pebble
mod Sinks
mod Documents
mod Configs
mod Delivery
