-- ===== src/Runtime/Behaviour.antt =====
-- What single commands do, branch by branch (src/ueaf/runtime/coordinator.py).
pub mod Written
pub mod Terminal
pub mod Lease
pub mod Resume
pub mod Fencing
