-- ===== src/Security.antt =====
-- Security (src/ueaf/security).
pub mod Policy
