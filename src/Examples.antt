-- ===== src/Examples.antt =====
-- The theorems at concrete inputs: small instances of the libraries, and runs of the operations.
mod Instances
mod Logs
mod Points
mod Tiers
mod Engines
mod Layers
mod Filters
mod Services
mod Snapshots
mod Caches
