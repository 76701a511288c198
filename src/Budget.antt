-- ===== src/Budget.antt =====
-- The budget of a diagnostic graph run (backend/services/agent_budget_service.py, and the table
-- `agent_budget` of backend/models/agent_graph.py).
pub mod Defs
pub mod Outcomes
pub mod Bounds
