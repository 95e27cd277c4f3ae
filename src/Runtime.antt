-- ===== src/Runtime.antt =====
-- The runtime of agent runs (src/ueaf/runtime and the repositories that it writes to).
pub mod Phase
pub mod Record
pub mod Outbox
pub mod Semver
pub mod Publisher
pub mod Store
pub mod Writer
pub mod Coordinator
pub mod Admission
pub mod Lifecycle
pub mod Command
pub mod Evolution
pub mod Events
pub mod Reachable
pub mod Behaviour
pub mod Recovery
pub mod Turn
