-- ===== src/Tasks.antt =====
-- The tasks of a diagnostic graph run (backend/services/agent_task_service.py, and the tables
-- `agent_task` and `agent_message` of backend/models/agent_graph.py).
pub mod Status
pub mod Store
pub mod Transition
pub mod Create
pub mod Creation
pub mod Lifecycle
