-- ===== src/Audit.antt =====
-- The security audit: backend/audit/service.py.
pub mod Log
pub mod Chain
