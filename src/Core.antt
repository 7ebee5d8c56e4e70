-- ===== src/Core.antt =====
-- The crate scorer-core: the header that the caches of all scorers share.
pub mod Cache
