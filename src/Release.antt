-- ===== src/Release.antt =====
-- Release control (src/ueaf/release).
pub mod Decisions
pub mod Manifest
pub mod Controller
