-- ===== src/Execution/Rollback.antt =====
-- `_execute_rollback`, and the outcome of an execution.
use agenticops.Prelude.{
  ℕ, ◌+◌, String, Bool, true, false, not, ◌&&◌, Option, none, some, List, [], ◌∷◌, ◌++◌, text_or,
  if◌then◌else◌,
}
use agenticops.Prelude.Exec.{Exec, type_error, pure, some_or, ◌>>=◌, ◌>>◌}
use agenticops.Prelude.Json.{Json, Fields, bool, text, end, field, get_or_null, put_field}
use agenticops.Tools.Spec.{ToolSpec}
use agenticops.Tools.Registry.{get}
use agenticops.Policy.Guard.{ExecutionRunStatus, PolicyDecision}
use agenticops.Approvals.Store.{RemediationPlan, RemediationPlanStatus}
use agenticops.Verifications.Store.{RunStatus, is_verified}
use agenticops.Execution.Requests.{PlanRequest}
use agenticops.Execution.Store.{ExecutionRun, Summary, detailed, ExecutionJob, ExecutionDb}
use agenticops.Execution.Actions.{
  World, Progress, summary, guard_check, create_execution_run, save_run, record_action_result,
}
use agenticops.Execution.Steps.{execute_allowed_action, succeeded_result}
use agenticops.Cases.Status.{CaseStatus}
use agenticops.Execution.Loop.{error_of, request_for}

module _ (w : World) (job : ExecutionJob) (plan : RemediationPlan) where
  unfoldable pub rollback_result :
      PlanRequest → Option ToolSpec → PolicyDecision → ExecutionRun → Exec ExecutionDb Fields
  unfolding execute_allowed_action
  rollback_result q spec decision run =
      if decision.allowed
      then execute_allowed_action w run q spec
      else pure
          (field "error" (text (text_or decision.blocked_reason "rollback_policy_blocked")) end)

  unfoldable pub rolled_run : Bool → PolicyDecision → Fields → ExecutionRun → ExecutionRun
  unfolding error_of put_field get_or_null
  rolled_run true decision result run = record run {
    status = ExecutionRunStatus.rolled_back;
    result_payload = put_field "rollback" (bool true) result;
    finished_at = some w.worker_now;
  }
  rolled_run false decision result run = record run {
    status = ExecutionRunStatus.failed;
    result_payload = put_field "rollback" (bool true) result;
    error_message =
        if decision.allowed then error_of result "rollback_failed" else get_or_null "error" result;
    finished_at = some w.worker_now;
  }

  -- The summaries, and whether every action so far has succeeded.
  unfoldable pub rollback_request :
      ℕ
      → PlanRequest
      → Option ToolSpec
      → Bool × List Summary
      → Exec ExecutionDb (Bool × List Summary)
  unfolding guard_check create_execution_run rollback_result succeeded_result rolled_run save_run
      summary record_action_result
  rollback_request index q spec acc = do
    decision ← guard_check w plan q
    run ← create_execution_run w plan q spec index decision
    result ← rollback_result q spec decision run
    let done = decision.allowed && succeeded_result w result
    let run' = rolled_run done decision result run
    save_run w run'
    let s = summary run' decision true
    record_action_result w job index q spec (if done then "rolled_back" else "rollback_failed")
        (detailed s result)
    pure (acc.0 && done, acc.1 ++ s ∷ [])

  unfoldable pub execute_rollback :
      String → ℕ → List Json → Bool × List Summary → Exec ExecutionDb (Bool × List Summary)
  unfolding rollback_request request_for get
  execute_rollback username index [] acc = pure acc
  execute_rollback username index (action ∷ rest) acc = do
    q ← some_or (request_for w plan username action) (type_error "action is not a dict")
    acc' ← rollback_request index q (get w.srv.tools q.tool.tool_id) acc
    execute_rollback username (index + 1) rest acc'

-- How an execution ends: the plan's status, and the move of the case if there is one.
pub record Ending : Type 0 where
  pub plan_status : RemediationPlanStatus
  pub target : Option (CaseStatus × String)

unfoldable pub all_verified : List RunStatus → Bool
unfolding is_verified
all_verified [] = true
all_verified (v ∷ vs) = is_verified v && all_verified vs

-- `bool(mutation_verdicts) and all(item == "verified" ...)`
unfoldable pub verified_resolved : List RunStatus → Bool
unfolding all_verified
verified_resolved [] = false
verified_resolved (v ∷ vs) = all_verified (v ∷ vs)

-- By whether a rollback was made and succeeded, and the progress.
unfoldable pub ending : Option Bool → Progress → Ending
unfolding verified_resolved
ending (some true) p = record {
  plan_status = RemediationPlanStatus.rolled_back;
  target = some (CaseStatus.rolled_back, "execution_rolled_back");
}
ending (some false) p = record {
  plan_status = RemediationPlanStatus.failed;
  target = some (CaseStatus.escalated, "rollback_failed");
}
ending none p =
    if p.allowed_success && not p.hard_failure
    then record {
      plan_status = RemediationPlanStatus.succeeded;
      target =
          if verified_resolved p.mutation_verdicts
          then none
          else some (CaseStatus.verifying, "post_execution_verify");
    }
    else if p.allowed_success
    then record {
      plan_status = RemediationPlanStatus.failed;
      target = some (CaseStatus.verifying, "post_execution_partial");
    }
    else if p.hard_failure
    then record {
      plan_status = RemediationPlanStatus.failed;
      target = some (CaseStatus.escalated, "execution_blocked");
    }
    else record {
      plan_status = RemediationPlanStatus.draft;
      target = some (CaseStatus.planned, "advisory_only");
    }

-- `RemediationPlanStatus.value`
unfoldable pub plan_status_text : RemediationPlanStatus → String
plan_status_text RemediationPlanStatus.draft = "draft"
plan_status_text RemediationPlanStatus.pending_approval = "pending_approval"
plan_status_text RemediationPlanStatus.approved = "approved"
plan_status_text RemediationPlanStatus.executing = "executing"
plan_status_text RemediationPlanStatus.succeeded = "succeeded"
plan_status_text RemediationPlanStatus.failed = "failed"
plan_status_text RemediationPlanStatus.rolled_back = "rolled_back"
plan_status_text RemediationPlanStatus.cancelled = "cancelled"

unfoldable pub job_status : Bool → RemediationPlanStatus → String
job_status true s = "succeeded"
job_status false RemediationPlanStatus.rolled_back = "rolled_back"
job_status false s = "failed"
