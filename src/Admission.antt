-- ===== src/Admission.antt =====
-- Admission of runs (src/ueaf/admission).
pub mod Result
pub mod Task
pub mod Principal
pub mod Envelopes
pub mod Reasons
pub mod Controller
