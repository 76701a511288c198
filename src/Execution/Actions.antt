-- ===== src/Execution/Actions.antt =====
-- The loop of `execute_plan` over the actions of a frozen plan. What Python draws, what other code
-- answers, and the configuration come in with a `World`.
use agenticops.Prelude.{
  ℕ, ◌+◌, String, Bool, true, false, Option, none, some, List, [], ◌∷◌, ◌++◌, update_first, str_eq,
}
use agenticops.Prelude.Exec.{ok, Exec, modify}
use agenticops.Prelude.Json.{Json, null, text, end, get_or_null, or_value}
use agenticops.Tools.Spec.{ToolSpec}
use agenticops.Tools.Registry.{str_of}
use agenticops.Policy.Guard.{ExecutionRunStatus, PolicyDecision, check}
use agenticops.Approvals.Store.{RemediationPlan}
use agenticops.Approvals.Service.{Services}
use agenticops.Verifications.Store.{VerificationPolicy, RunStatus}
use agenticops.Verifications.Checks.{Adapters}
use agenticops.Execution.Engine.{ExecutorType, Executor}
use agenticops.Execution.Requests.{PlanRequest, CaseColumns}
use agenticops.Execution.Store.{
  ExecutionRun, Summary, ActionDetail, plain, detailed, ExecutionJob, ExecutionDb, is_execution_run,
  policy_view, with_settings,
}

-- One reading of the clock stands for all of the worker's. `uuid` is the uuid that is drawn at a
-- named place; the monitoring answers at the baseline of an action and after it.
pub record World : Type 0 where
  pub srv : Services
  pub executors : ExecutorType → Option Executor
  pub observe_only : Bool
  pub now : ℕ
  pub worker_now : ℕ
  pub columns : ℕ → CaseColumns
  pub policy_of : Json → Option VerificationPolicy
  pub baseline_view : ℕ → Adapters
  pub later_view : ℕ → Adapters
  pub request_digest : ℕ → ℕ → String → String
  pub action_digest : PlanRequest → String
  pub uuid : String → String
  pub idempotency_ttl_hours : ℕ

-- What the loop keeps beside the rows.
pub record Progress : Type 0 where
  pub summaries : List Summary
  pub allowed_success : Bool
  pub hard_failure : Bool
  pub mutation_verdicts : List RunStatus

abbrev pub fresh_progress : Progress
fresh_progress = record {
  summaries = [];
  allowed_success = false;
  hard_failure = false;
  mutation_verdicts = [];
}

-- `request.tool_id in ADVISORY_TOOL_IDS`
unfoldable pub is_advisory : PlanRequest → Bool
is_advisory q = str_eq q.tool.tool_id "manual.review"

unfoldable pub risk_of : Option ToolSpec → ℕ
risk_of none = 0
risk_of (some spec) = spec.risk_level

unfoldable pub capability_of : Option ToolSpec → String
capability_of none = "unknown"
capability_of (some spec) = spec.capability

unfoldable pub is_mutation : Option ToolSpec → Bool
is_mutation none = false
is_mutation (some spec) = str_eq spec.capability "mutation"

executor_type_name : Option ToolSpec → String
executor_type_name none = "unknown"
executor_type_name (some spec) = spec.executor_type

executor_name : Option ToolSpec → String → String
executor_name none tool_id = tool_id
executor_name (some spec) tool_id = spec.name

unfoldable pub status_text : ExecutionRunStatus → String
status_text ExecutionRunStatus.pending = "pending"
status_text ExecutionRunStatus.running = "running"
status_text ExecutionRunStatus.succeeded = "succeeded"
status_text ExecutionRunStatus.failed = "failed"
status_text ExecutionRunStatus.verifying = "verifying"
status_text ExecutionRunStatus.verified = "verified"
status_text ExecutionRunStatus.rolled_back = "rolled_back"

-- The summary of an advisory action.
unfoldable pub skipped_summary : PlanRequest → Option ToolSpec → Summary
unfolding risk_of
skipped_summary q spec = record {
  execution_run_id = none;
  tool_id = q.tool.tool_id;
  status = "skipped";
  blocked_reason = none;
  allowed = true;
  effective_risk = risk_of spec;
  rollback = false;
}

-- `_summary`
unfoldable pub summary : ExecutionRun → PolicyDecision → Bool → Summary
unfolding status_text
summary run decision rollback = record {
  execution_run_id = some run.id;
  tool_id = run.request.tool.tool_id;
  status = status_text run.status;
  blocked_reason = decision.blocked_reason;
  allowed = decision.allowed;
  effective_risk = decision.effective_risk;
  rollback = rollback;
}

-- `result.get("error") or result.get("blocked_reason")`: a detailed result has neither key.
unfoldable pub recorded_error : ActionDetail → Option String
recorded_error (plain s) = s.blocked_reason
recorded_error (detailed s r) = none

-- The gate of the loop: the decision, with what the guard writes.
module _ (w : World) where
  unfoldable pub guard_check : RemediationPlan → PlanRequest → Exec ExecutionDb PolicyDecision
  unfolding check policy_view with_settings
  guard_check plan q db =
      let r =
        check w.srv.python w.srv.tools w.observe_only w.worker_now q.tool
          (some plan.approval_status) (some (policy_view db)) in
      (ok r.0, with_settings r.1 db)

  target_id : PlanRequest → Option String
  unfolding or_value get_or_null str_of
  target_id q =
      let target =
        or_value
          (or_value (get_or_null "netbox_device_id" q.tool.target)
            (get_or_null "device_ip" q.tool.target))
          (get_or_null "host" q.tool.target) in
      elim target [ null ↦ none | v ↦ some (str_of w.srv.python v) ]

  -- `_create_execution_run`
  unfoldable pub new_execution_run :
      ℕ → RemediationPlan → PlanRequest → Option ToolSpec → ℕ → PolicyDecision → ExecutionRun
  unfolding executor_type_name executor_name target_id
  new_execution_run id plan q spec index decision = record {
    id = id;
    case_id = q.case_id;
    remediation_plan_id = plan.id;
    executor_type = executor_type_name spec;
    executor_name = executor_name spec q.tool.tool_id;
    status = ExecutionRunStatus.running;
    command_summary =
        or_value (or_value (get_or_null "title" q.action) (get_or_null "action_type" q.action))
          (text q.tool.tool_id);
    request = q;
    action_index = index;
    target_id = target_id q;
    decision = decision;
    result_payload = end;
    error_message = null;
    started_at = w.worker_now;
    finished_at = none;
    verified_at = none;
  }

  unfoldable pub create_execution_run :
      RemediationPlan
      → PlanRequest
      → Option ToolSpec
      → ℕ
      → PolicyDecision
      → Exec ExecutionDb ExecutionRun
  unfolding new_execution_run
  create_execution_run plan q spec index decision db =
      let run = new_execution_run db.next_run_id plan q spec index decision in
      (ok run, record db { runs = db.runs ++ run ∷ []; next_run_id = db.next_run_id + 1 })

  unfoldable pub save_run : ExecutionRun → Exec ExecutionDb Unit
  unfolding is_execution_run
  save_run run =
      modify (λ db. record db { runs = update_first (is_execution_run run.id) (λ _. run) db.runs })

  -- `_record_action_result`
  unfoldable pub record_action_result :
      ExecutionJob
      → ℕ
      → PlanRequest
      → Option ToolSpec
      → String
      → ActionDetail
      → Exec ExecutionDb Unit
  unfolding capability_of recorded_error
  record_action_result job index q spec status detail = modify (λ db. record db {
    results =
        db.results
        ++ record {
          execution_job_id = job.id;
          action_index = index;
          tool_id = q.tool.tool_id;
          capability = capability_of spec;
          status = status;
          request_hash = w.action_digest q;
          result = detail;
          error_message = recorded_error detail;
          finished_at = w.worker_now;
        }
          ∷ [];
  })
