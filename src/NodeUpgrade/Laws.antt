-- ===== src/NodeUpgrade/Laws.antt =====
-- What the decisions of a node's upgrade guarantee.
pub mod Selection
pub mod Resolution
pub mod Exits
pub mod Stopping
pub mod Preview
pub mod Rounds
pub mod Batches
pub mod Counting
pub mod Reliable
