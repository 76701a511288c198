-- ===== src/Tasks/Create.antt =====
-- `AgentTaskService.create`.
use agenticops.Prelude.{
  ℕ, ◌+◌, String, Bool, ◌&&◌, Option, none, some, [], ◌∷◌, ◌++◌, find?, str, str_eq, text_or,
  last_text, format, truthy, if◌then◌else◌,
}
use agenticops.Prelude.Exec.{Exec, pure, gets, modify, zoom, ◌>>=◌, ◌>>◌}
use agenticops.Prelude.Json.{Fields, text, obj, end, field}
use agenticops.Cases.Store.{CaseDb, CaseTimelineEvent, append, increment}
use agenticops.Tasks.Status.{ready}
use agenticops.Tasks.Store.{AgentTask, AgentMessage, TaskDb}

-- The keyword arguments; a correlation id that is left out is drawn by the caller.
pub record TaskRequest : Type 0 where
  pub graph_run_id : String
  pub case_id : ℕ
  pub task_type : String
  pub graph_node : String
  pub goal : String
  pub idempotency_key : String
  pub assigned_agent_type : Option String
  pub assigned_agent_name : Option String
  pub input_payload : Fields
  pub priority : ℕ
  pub parent_task_id : Option ℕ
  pub insight_round : ℕ
  pub max_attempts : ℕ
  pub deadline_at : Option ℕ
  pub created_by : String
  pub correlation_id : String

unfoldable pub has_key : String → String → AgentTask → Bool
has_key run key t = str_eq t.graph_run_id run && str_eq t.idempotency_key key

unfoldable pub new_task : ℕ → TaskRequest → AgentTask
new_task id q = record {
  id = id;
  graph_run_id = q.graph_run_id;
  case_id = q.case_id;
  parent_task_id = q.parent_task_id;
  task_code =
      format (q.graph_node ∷ ":" ∷ str q.insight_round ∷ ":" ∷ last_text 12 q.idempotency_key ∷ []);
  task_type = q.task_type;
  graph_node = q.graph_node;
  goal = q.goal;
  assigned_agent_type = q.assigned_agent_type;
  assigned_agent_name = q.assigned_agent_name;
  status = ready;
  priority = q.priority;
  input_payload = q.input_payload;
  output_payload = end;
  error_message = none;
  attempt_count = 0;
  max_attempts = q.max_attempts;
  insight_round = q.insight_round;
  idempotency_key = q.idempotency_key;
  deadline_at = q.deadline_at;
  started_at = none;
  finished_at = none;
  created_by = q.created_by;
}

unfoldable pub assignment : ℕ → TaskRequest → AgentMessage
assignment id q = record {
  graph_run_id = q.graph_run_id;
  case_id = q.case_id;
  task_id = id;
  sender_type = "supervisor";
  sender_id = q.created_by;
  receiver_type = if truthy q.assigned_agent_type then "agent" else "graph_node";
  receiver_id = text_or q.assigned_agent_type q.graph_node;
  message_type = "task_assignment";
  content = field "goal" (text q.goal) (field "input" (obj q.input_payload) end);
  correlation_id = q.correlation_id;
}

unfoldable pub announcement : ℕ → TaskRequest → CaseTimelineEvent
announcement id q = record {
  case_id = q.case_id;
  graph_run_id = some q.graph_run_id;
  task_id = some id;
  event_type = "agent_task";
  title = format ("Task ready: " ∷ q.graph_node ∷ []);
  actor_type = "supervisor";
  actor_id = some q.created_by;
  correlation_id = q.correlation_id;
  idempotency_key = format ("task-created:" ∷ q.graph_run_id ∷ ":" ∷ q.idempotency_key ∷ []);
  payload =
      field "task_type" (text q.task_type)
        (field "goal" (text q.goal) (field "status" (text "ready") end));
}

unfoldable pub on_cases : {A : Type 0} → Exec CaseDb A → Exec TaskDb A
on_cases = zoom (λ db. db.case_db) (λ c db. record db { case_db = c })

unfoldable pub add_task : TaskRequest → Exec TaskDb AgentTask
unfolding on_cases
add_task q = do
  id ← gets (λ db. db.next_task_id)
  let task = new_task id q
  modify (λ db. record db { tasks = db.tasks ++ task ∷ []; next_task_id = db.next_task_id + 1 })
  modify (λ db. record db { messages = db.messages ++ assignment id q ∷ [] })
  _ ← on_cases (append (announcement id q))
  on_cases (increment "agent_task_total" (("task_type", q.task_type) ∷ ("status", "ready") ∷ []))
  on_cases (increment "agent_message_total" (("message_type", "task_assignment") ∷ []))
  pure task

unfoldable pub create_unless : Option AgentTask → TaskRequest → Exec TaskDb AgentTask
create_unless (some existing) q = pure existing
create_unless none q = add_task q

unfoldable pub create : TaskRequest → Exec TaskDb AgentTask
unfolding create_unless has_key
create q = do
  existing ← gets (λ db. find? (has_key q.graph_run_id q.idempotency_key) db.tasks)
  create_unless existing q
