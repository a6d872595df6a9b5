-- ===== src/NodeUpgrade.antt =====
-- roles/node_upgrade/filter_plugins/node_upgrade.py: the decisions of a node's upgrade.
pub mod Containers
pub mod Recorded
pub mod Pins
pub mod Cli
pub mod Hold
pub mod Agent
pub mod Decide
pub mod Updates
pub mod Helper
pub mod Cycle
pub mod Laws
