-- ===== src/NodeStorage.antt =====
-- roles/node_storage/filter_plugins/node_storage.py: may the data disk be formatted?
pub mod Paths
pub mod Device
pub mod Results
pub mod Probe
pub mod Check
pub mod Disk
pub mod Signature
pub mod Places
pub mod Contents
pub mod Verdict
pub mod Spec
pub mod Stages
pub mod Safety
