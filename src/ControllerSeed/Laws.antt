-- ===== src/ControllerSeed/Laws.antt =====
-- What the normalization of a preview leaves of a line.
mod Tails
pub mod Normal
pub mod Previews
mod Suffixes
pub mod Ids
pub mod Positions
pub mod Fingerprint
