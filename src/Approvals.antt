-- ===== src/Approvals.antt =====
-- Human approval of frozen plans: backend/approvals/service.py.
pub mod Store
pub mod Service
pub mod Decide
pub mod Binding
pub mod Single
pub mod Active
pub mod Grant
