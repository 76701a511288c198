-- ===== src/Policy.antt =====
-- The policy guard in front of every action (backend/policies/guard.py, rules.py, schemas.py) and
-- the autonomy level that it reads (backend/services/automation_settings_service.py).
pub mod Settings
pub mod Guard
pub mod Sound
pub mod Gates
pub mod Levels
pub mod RoundTrip
