-- ===== src/Tool/Action.antt =====
-- `ActionCoordinator` (src/ueaf/tool/action.py). A method takes the caller's copy of the record and
-- writes to the coordinator's dictionaries, the state here. `now or _now()` is an optional moment.
pub mod Phase
pub mod Record
pub mod State
pub mod Commands
pub mod Receipts
pub mod Authority
pub mod Stale
pub mod Identity
