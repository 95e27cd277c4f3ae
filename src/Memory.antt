-- ===== src/Memory.antt =====
-- Governed memory (src/ueaf/memory).
pub mod Objects
pub mod Review
pub mod Store
