-- ===== src/Tailscale/Laws.antt =====
-- What the comparison of a node with the role's flags rests on.
mod Popping
mod Settings
mod Network
pub mod Spec
pub mod Quoting
pub mod Agreement
pub mod Filters
