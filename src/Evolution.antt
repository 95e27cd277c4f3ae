-- ===== src/Evolution.antt =====
-- Controlled evolution (src/ueaf/evolution).
pub mod Objects
pub mod Validator
pub mod Strategy
pub mod Kernel
pub mod Gates
