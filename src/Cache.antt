-- ===== src/Cache.antt =====
-- The in-memory cache: backend/utils/cache.py.
pub mod Store
pub mod View
pub mod Refinement
pub mod Runs
