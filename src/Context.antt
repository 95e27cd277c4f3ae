-- ===== src/Context.antt =====
-- The context that a model call is given (src/ueaf/context).
pub mod Compression
pub mod Budget
