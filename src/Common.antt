-- ===== src/Common.antt =====
-- The package common: what all contracts share (common/*.go).
pub mod Ir
pub mod Vote
pub mod Transfer
pub mod Version
pub mod Quorum
