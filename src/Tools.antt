-- ===== src/Tools.antt =====
-- The catalogue of tools and the checks on their parameters (backend/tools/registry.py, base.py).
pub mod Spec
pub mod Registry
