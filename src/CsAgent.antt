-- ===== src/CsAgent.antt =====
-- roles/cs_agent/filter_plugins: the checks of the agent's configuration.
pub mod Export
pub mod Immutable
pub mod Laws
