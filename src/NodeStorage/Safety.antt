-- ===== src/NodeStorage/Safety.antt =====
-- What the verdict of roles/node_storage/filter_plugins/node_storage.py rests on.
pub mod Accepted
pub mod States
pub mod FromResults
pub mod Listing
