-- ===== src/Tool.antt =====
-- Tools and their side effects (src/ueaf/tool).
pub mod Action
