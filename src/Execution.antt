-- ===== src/Execution.antt =====
-- The execution of approved plans: backend/services/execution_engine.py and execution_service.py.
pub mod Engine
pub mod Attempts
pub mod Requests
pub mod Store
pub mod Actions
pub mod Steps
pub mod Loop
pub mod Rollback
pub mod Accept
pub mod Plan
pub mod Frame
pub mod Guarded
pub mod Boundary
pub mod Starts
pub mod Safety
pub mod Quiet
pub mod Once
pub mod Repeat
