-- ===== src/Core.antt =====
-- include/openrtdds/core: startup limits, the bounded KEEP_LAST history and the object pool.
pub mod Limits
pub mod History
pub mod Pool
