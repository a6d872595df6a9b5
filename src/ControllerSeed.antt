-- ===== src/ControllerSeed.antt =====
-- roles/controller_seed/filter_plugins/controller_seed_preview.py: the fingerprint of a preview.
pub mod Patterns
pub mod Log
pub mod Preview
pub mod Laws
