-- ===== src/Tools.antt =====
-- The tools of an operator (tools).
pub mod CacheTransfer
