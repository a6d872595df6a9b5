-- ===== src/CsAgent/Laws.antt =====
-- What the checks of the agent's configuration accept.
pub mod Accepted
pub mod Numbers
pub mod Unchanged
pub mod Rules
