-- ===== src/Preflight/Laws.antt =====
-- What the checks before a run report.
pub mod Answers
pub mod Timers
pub mod Covering
pub mod Public
