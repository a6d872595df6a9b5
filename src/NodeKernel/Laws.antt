-- ===== src/NodeKernel/Laws.antt =====
-- What the plan for the uplink rests on.
pub mod Files
pub mod Plans
