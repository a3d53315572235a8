-- ===== src/Tests.antt =====
-- Witnesses of the theorems and runs of the model on concrete inputs, over small services.
mod World
mod Daemon
mod Keys
mod Prefixes
mod Mounting
mod Leases
mod Blocked
mod Threads
mod Gauge
mod Serving
mod Owners
mod Cluster
mod Admission
mod Metered
mod Config
mod Pipeline
mod Flags
mod Building
mod Wiring
