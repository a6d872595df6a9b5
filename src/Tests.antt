-- ===== src/Tests.antt =====
-- Runs of the definitions, and the theorems applied to concrete data.
mod Texts
mod Storage
mod Upgrade
mod Batches
mod Cycle
mod Results
mod Settings
mod Uplink
mod Preflight
mod Immutable
mod Tailscale
mod Seed
mod Sources
mod Addresses
