-- ===== src/NodeUpgrade/Cycle.antt =====
-- roles/node_upgrade/tasks: the upgrade of a node in phases that a later run resumes.
pub mod Machine
pub mod Steps
pub mod Runs
pub mod History
pub mod Triples
pub mod Phases
pub mod Holding
pub mod Skips
pub mod Conforms
pub mod Order
pub mod Guards
pub mod Keeping
pub mod Refusals
