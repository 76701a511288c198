-- ===== src/Cases.antt =====
-- The life of a case: its statuses, its journal and its timeline
-- (backend/services/case_state_service.py, case_timeline_service.py, observability/metrics.py and
-- the tables of backend/models/agenticops.py and agent_graph.py that they write).
pub mod Status
pub mod Store
pub mod Transition
pub mod Legality
pub mod Idempotency
pub mod Journal
pub mod Closing
pub mod Graph
