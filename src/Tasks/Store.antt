-- ===== src/Tasks/Store.antt =====
-- The rows of tasks and messages.
use agenticops.Prelude.{ℕ, String, Option, List}
use agenticops.Prelude.Json.{Fields}
use agenticops.Cases.Store.{CaseDb}
use agenticops.Tasks.Status.{TaskStatus}

pub record AgentTask : Type 0 where
  pub id : ℕ
  pub graph_run_id : String
  pub case_id : ℕ
  pub parent_task_id : Option ℕ
  pub task_code : String
  pub task_type : String
  pub graph_node : String
  pub goal : String
  pub assigned_agent_type : Option String
  pub assigned_agent_name : Option String
  pub status : TaskStatus
  pub priority : ℕ
  pub input_payload : Fields
  pub output_payload : Fields
  pub error_message : Option String
  pub attempt_count : ℕ
  pub max_attempts : ℕ
  pub insight_round : ℕ
  pub idempotency_key : String
  pub deadline_at : Option ℕ
  pub started_at : Option ℕ
  pub finished_at : Option ℕ
  pub created_by : String

pub record AgentMessage : Type 0 where
  pub graph_run_id : String
  pub case_id : ℕ
  pub task_id : ℕ
  pub sender_type : String
  pub sender_id : String
  pub receiver_type : String
  pub receiver_id : String
  pub message_type : String
  pub content : Fields
  pub correlation_id : String

-- `next_task_id` is the sequence that numbers the rows of `agent_task`.
pub record TaskDb : Type 0 where
  pub tasks : List AgentTask
  pub next_task_id : ℕ
  pub messages : List AgentMessage
  pub case_db : CaseDb
