-- ===== src/Tailscale.antt =====
-- roles/tailscale/filter_plugins/tailscale.py: the membership of a node in the tailnet.
pub mod Backend
pub mod Flags
pub mod Settings
pub mod Routes
pub mod Modes
pub mod Compare
pub mod Laws
