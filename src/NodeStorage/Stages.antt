-- ===== src/NodeStorage/Stages.antt =====
-- When each check of the classifier passes.
pub mod Device
pub mod Filesystem
pub mod Mounts
pub mod RootDisk
