-- ===== src/Runtime/Evolution.antt =====
-- How a command may change the run records: the step relation that src/ueaf/runtime/coordinator.py
-- refines. The proofs for the helpers and the commands are in the modules below.
pub mod Rules
pub mod Helpers
pub mod Commands
pub mod Execute
pub mod History
