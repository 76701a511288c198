-- ===== src/Verifications.antt =====
-- Verification of executed actions: backend/verifications/service.py, baseline.py and schemas.py.
pub mod Store
pub mod Baseline
pub mod Checks
pub mod Evaluate
pub mod Round
pub mod Verdicts
pub mod Immediate
