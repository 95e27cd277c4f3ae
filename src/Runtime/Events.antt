-- ===== src/Runtime/Events.antt =====
-- The events that the coordinator writes to its outbox (src/ueaf/runtime/coordinator.py).
pub mod Rules
pub mod Helpers
pub mod Execute
