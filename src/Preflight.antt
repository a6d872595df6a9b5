-- ===== src/Preflight.antt =====
-- roles/preflight/filter_plugins: what is checked before a host is touched.
pub mod Reachable
pub mod Sources
pub mod Ipv6
pub mod Rollback
pub mod Laws
