-- ===== src/Execution/Loop.antt =====
-- The loop of `execute_plan` over the frozen actions, and `_execute_rollback`.
use agenticops.Prelude.{
  ℕ, ◌+◌, String, Bool, true, false, Option, none, some, List, [], ◌∷◌, ◌++◌, text_or,
  if◌then◌else◌,
}
use agenticops.Prelude.Exec.{Exec, type_error, pure, some_or, ◌>>=◌, ◌>>◌}
use agenticops.Prelude.Json.{
  Json, Fields, num, text, obj, end, field, get_or_null, or_value, put_field,
}
use agenticops.Tools.Spec.{ToolSpec}
use agenticops.Tools.Registry.{get}
use agenticops.Policy.Guard.{ExecutionRunStatus, PolicyDecision}
use agenticops.Approvals.Store.{RemediationPlan}
use agenticops.Verifications.Store.{RunStatus, VerificationRun}
use agenticops.Execution.Requests.{PlanRequest, build_tool_request}
use agenticops.Execution.Store.{ExecutionRun, Summary, plain, detailed, ExecutionJob, ExecutionDb}
use agenticops.Execution.Actions.{
  World, Progress, is_advisory, is_mutation, skipped_summary, summary, guard_check,
  create_execution_run, save_run, record_action_result,
}
use agenticops.Execution.Steps.{
  execute_allowed_action, succeeded_result, capture, is_ready, verify_action, view_fields, reload,
}

unfoldable pub with_summary : Summary → Progress → Progress
with_summary s p = record p { summaries = p.summaries ++ s ∷ [] }

unfoldable pub failed_with : Summary → Progress → Progress
unfolding with_summary
failed_with s p = record (with_summary s p) { hard_failure = true }

unfoldable pub add_verdict : Option RunStatus → Progress → Progress
add_verdict none p = p
add_verdict (some v) p = record p { mutation_verdicts = p.mutation_verdicts ++ v ∷ [] }

-- The progress after an action that was executed.
unfoldable pub progressed : Bool → Summary → Option RunStatus → Progress → Progress
unfolding failed_with with_summary add_verdict
progressed true s v p = record (add_verdict v (with_summary s p)) { allowed_success = true }
progressed false s v p = failed_with s p

-- `result.get("error") or result.get("message") or other`
unfoldable pub error_of : Fields → String → Json
unfolding or_value get_or_null
error_of result other =
    or_value (or_value (get_or_null "error" result) (get_or_null "message" result)) (text other)

unfoldable pub finished_run : ℕ → Bool → Fields → ExecutionRun → ExecutionRun
unfolding error_of
finished_run now true result run = record run {
  status = ExecutionRunStatus.succeeded;
  result_payload = result;
  finished_at = some now;
}
finished_run now false result run = record run {
  status = ExecutionRunStatus.failed;
  result_payload = result;
  finished_at = some now;
  error_message = error_of result "execution_failed";
}

-- The request for an action of a plan.
module _ (w : World) (plan : RemediationPlan) where
  unfoldable pub request_for : String → Json → Option PlanRequest
  unfolding build_tool_request
  request_for username action =
      build_tool_request w.srv.python w.srv.tools (w.columns plan.case_id) plan.case_id plan.id
        username action

module _ (w : World) (job : ExecutionJob) (plan : RemediationPlan) where
  unfoldable pub skip_action :
      ℕ → PlanRequest → Option ToolSpec → Progress → Exec ExecutionDb Progress
  unfolding record_action_result skipped_summary with_summary
  skip_action index q spec p = do
    let s = skipped_summary q spec
    record_action_result w job index q spec "skipped" (plain s)
    pure (with_summary s p)

  unfoldable pub block_action :
      ℕ
      → PlanRequest
      → Option ToolSpec
      → PolicyDecision
      → ExecutionRun
      → Progress
      → Exec ExecutionDb Progress
  unfolding record_action_result save_run summary failed_with
  block_action index q spec decision run p = do
    let run' = record run {
      status = ExecutionRunStatus.failed;
      error_message = text (text_or decision.blocked_reason "policy_blocked");
      finished_at = some w.worker_now;
    }
    save_run w run'
    let s = summary run' decision false
    record_action_result w job index q spec "failed" (plain s)
    pure (failed_with s p)

  unfoldable pub fail_baseline :
      ℕ
      → PlanRequest
      → Option ToolSpec
      → PolicyDecision
      → ExecutionRun
      → VerificationRun
      → Progress
      → Exec ExecutionDb Progress
  unfolding record_action_result save_run summary failed_with
  fail_baseline index q spec decision run v p = do
    let payload = field "status" (text "failed") (
        field "error" (text "verification_baseline_failed")
          (field "verification_run_id" (num v.id) end))
    let run' = record run {
      status = ExecutionRunStatus.failed;
      error_message = text "mandatory verification baseline failed";
      result_payload = payload;
      finished_at = some w.worker_now;
    }
    save_run w run'
    let s = summary run' decision false
    record_action_result w job index q spec "failed" (detailed s payload)
    pure (failed_with s p)

  -- The verdict on an action that succeeded and has a baseline.
  unfoldable pub verify_if :
      Bool
      → Option VerificationRun
      → ℕ
      → Fields
      → ExecutionRun
      → Exec ExecutionDb (Option RunStatus)
  unfolding verify_action reload save_run view_fields put_field
  verify_if true (some v) index result run = do
    view ← verify_action w run v index
    run' ← reload w run
    save_run w (record run' {
      result_payload = put_field "post_verification" (obj (view_fields view)) result;
    })
    pure (some view.run.status)
  verify_if _ _ index result run = pure none

  unfoldable pub perform_action :
      ℕ
      → PlanRequest
      → Option ToolSpec
      → PolicyDecision
      → ExecutionRun
      → Option VerificationRun
      → Progress
      → Exec ExecutionDb Progress
  unfolding execute_allowed_action succeeded_result finished_run save_run verify_if reload summary
      record_action_result progressed
  perform_action index q spec decision run v p = do
    result ← execute_allowed_action w run q spec
    let done = succeeded_result w result
    let run' = finished_run w.worker_now done result run
    save_run w run'
    verdict ← verify_if done v index result run'
    run'' ← reload w run'
    let s = summary run'' decision false
    record_action_result w job index q spec (if done then "succeeded" else "failed")
        (detailed s run''.result_payload)
    pure (progressed done s verdict p)

  unfoldable pub with_baseline :
      ℕ
      → PlanRequest
      → Option ToolSpec
      → PolicyDecision
      → ExecutionRun
      → VerificationRun
      → Progress
      → Exec ExecutionDb Progress
  unfolding perform_action fail_baseline is_ready
  with_baseline index q spec decision run v p =
      if is_ready v.status
      then perform_action index q spec decision run (some v) p
      else fail_baseline index q spec decision run v p

  unfoldable pub allow_action :
      ℕ
      → PlanRequest
      → Option ToolSpec
      → PolicyDecision
      → ExecutionRun
      → Progress
      → Exec ExecutionDb Progress
  unfolding perform_action with_baseline capture is_mutation
  allow_action index q spec decision run p =
      if is_mutation spec
      then (do v ← capture w job q index; with_baseline index q spec decision run v p)
      else perform_action index q spec decision run none p

  unfoldable pub checked_action :
      ℕ → PlanRequest → Option ToolSpec → Progress → Exec ExecutionDb Progress
  unfolding guard_check create_execution_run allow_action block_action
  checked_action index q spec p = do
    decision ← guard_check w plan q
    run ← create_execution_run w plan q spec index decision
    if decision.allowed
        then allow_action index q spec decision run p
        else block_action index q spec decision run p

  unfoldable pub run_request : ℕ → PlanRequest → Progress → Exec ExecutionDb Progress
  unfolding skip_action checked_action is_advisory get
  run_request index q p =
      if is_advisory q
      then skip_action index q (get w.srv.tools q.tool.tool_id) p
      else checked_action index q (get w.srv.tools q.tool.tool_id) p

  unfoldable pub run_actions : String → ℕ → List Json → Progress → Exec ExecutionDb Progress
  unfolding run_request request_for
  run_actions username index [] p = pure p
  run_actions username index (action ∷ rest) p = do
    q ← some_or (request_for w plan username action) (type_error "action is not a dict")
    p' ← run_request index q p
    run_actions username (index + 1) rest p'
