-- ===== src/Execution/Steps.antt =====
-- `_execute_allowed_action`, and the branches of the loop over the actions.
use agenticops.Prelude.{
  ℕ, ◌+◌, String, Bool, true, false, not, ◌&&◌, Option, none, some, [], ◌∷◌, ◌++◌, find?, str_eq,
  str, format, or_else, if◌then◌else◌, length,
}
use agenticops.Prelude.Exec.{
  Exec, ok, value_error, type_error, pure, gets, modify, some_or, zoom, ◌>>=◌, ◌>>◌,
}
use agenticops.Prelude.Json.{
  Json, Fields, bool, num, text, obj, end, field, get_or_null, or_value, truth, int_of,
}
use agenticops.Tools.Spec.{ToolSpec}
use agenticops.Webhooks.Enqueue.{enqueue}
use agenticops.Verifications.Store.{RunStatus, baseline_ready, found, VerificationRun, verdict_text}
use agenticops.Verifications.Evaluate.{Call}
use agenticops.Verifications.Round.{View, evaluate}
use agenticops.Verifications.Baseline.{capture_checks, captured_run, numbered, new_run}
use agenticops.Execution.Engine.{
  ExecutorType, executor_type_of, RetryPolicy, Trial, execute_action, to_dict,
}
use agenticops.Execution.Requests.{PlanRequest, CaseColumns, set_default}
use agenticops.Execution.Store.{
  ExecutionRun, ExecutionJob, ExecutionDb, is_execution_run, policy_view, verification_view,
  with_verification,
}
use agenticops.Execution.Actions.{World}

abbrev failed_result : String → String → Fields
failed_result message error =
    field "status" (text "failed") (field "message" (text message) (field "error" (text error) end))

-- A mutation is not tried again.
unfoldable pub retry_policy_of : ToolSpec → Option RetryPolicy
retry_policy_of spec =
    if str_eq spec.capability "mutation"
    then some (record { max_retries = 0; retry_delay = 5; backoff_factor = 2 })
    else none

with_device : Json → Fields → Fields
unfolding set_default int_of truth
with_device v config =
    if truth v then set_default "netbox_device_id" (num (or_else (int_of v) 0)) config else config

-- The configuration that the executor gets.
unfoldable pub action_config : CaseColumns → PlanRequest → ToolSpec → Fields
unfolding set_default with_device
action_config columns q spec = with_device columns.netbox_device_id (
    set_default "read_only"
      (bool (str_eq q.tool.mode "observe" && not (str_eq q.tool.tool_id "script.run")))
      (set_default "timeout" (num spec.timeout) q.tool.params))

unfoldable pub run_status : RunStatus → String
run_status (found v) = verdict_text v
run_status RunStatus.baseline_collecting = "baseline_collecting"
run_status RunStatus.baseline_failed = "baseline_failed"
run_status RunStatus.baseline_ready = "baseline_ready"
run_status RunStatus.checking = "checking"

unfoldable pub is_ready : RunStatus → Bool
is_ready baseline_ready = true
is_ready _ = false

-- `VerificationService.view`, less the time of the next check and the list of checks.
unfoldable pub view_fields : View → Fields
unfolding run_status
view_fields v = field "success" (bool true) (
    field "verification_run_id" (num v.run.id) (
      field "execution_job_id" (num v.run.execution_job_id) (
        field "case_id" (num v.run.case_id) (
          field "verdict" (text (run_status v.run.status))
            (field "rounds_completed" (num v.run.rounds_completed) end)))))

module _ (w : World) where
  -- A notification is queued in the outbox; the answer names the event.
  unfoldable pub notify : ExecutionRun → PlanRequest → Exec ExecutionDb Fields
  unfolding enqueue format str or_value get_or_null
  notify run q db =
      let event_id = w.uuid (format ("notification:" ∷ str run.id ∷ [])) in
      (
        ok (
            field "status" (text "success") (
              field "message" (text "notification queued in webhook outbox")
                (field "details" (obj (field "event_id" (text event_id) end)) end))),
        record db {
          approvals = record db.approvals {
            webhooks =
                enqueue w.worker_now
                  (record {
                    event_id = event_id;
                    event_type = "automation.notification";
                    aggregate_type = "execution_run";
                    aggregate_id = str run.id;
                    payload =
                        field "title"
                          (or_value (get_or_null "title" q.tool.params)
                            (text "AgenticOps notification"))
                          (field "message"
                            (or_value (get_or_null "message" q.tool.params) (text ""))
                            (field "case_id" (num q.case_id)
                              (field "plan_id" (num q.plan_id) end)));
                    endpoint_ids = none;
                  })
                  db.approvals.webhooks;
          };
        },
      )

  unfoldable pub tried : ExecutionRun → PlanRequest → Trial → Exec ExecutionDb Fields
  unfolding to_dict policy_view
  tried run q t = do
    modify (λ db. record db {
      effects =
          db.effects
          ++ record {
            execution_run_id = run.id;
            request = q;
            calls = t.calls;
            store = policy_view db;
          }
            ∷ [];
    })
    result ← some_or t.result (type_error "'NoneType' object has no attribute 'to_dict'")
    pure (to_dict w.worker_now result)

  unfoldable pub execute_typed :
      ExecutionRun → PlanRequest → ToolSpec → Option ExecutorType → Exec ExecutionDb Fields
  unfolding tried execute_action action_config retry_policy_of format
  execute_typed run q spec none = pure (
      failed_result (format ("Unsupported executor type: " ∷ spec.executor_type ∷ []))
        "unsupported_executor_type")
  execute_typed run q spec (some type) = do
    settings ← gets (λ db. db.settings)
    tried run q (
        execute_action w.executors w.observe_only settings run.id type
          (action_config (w.columns q.case_id) q spec) (retry_policy_of spec))

  -- `_execute_allowed_action`
  unfoldable pub execute_allowed_action :
      ExecutionRun → PlanRequest → Option ToolSpec → Exec ExecutionDb Fields
  unfolding notify execute_typed executor_type_of
  execute_allowed_action run q none = pure (failed_result "tool spec missing" "tool_spec_missing")
  execute_allowed_action run q (some spec) =
      if str_eq spec.capability "notification"
      then notify run q
      else execute_typed run q spec (executor_type_of spec.executor_type)

  unfoldable pub succeeded_result : Fields → Bool
  unfolding get_or_null
  succeeded_result result = elim (get_or_null "status" result) [
    | text s ↦ str_eq s "success"
    | _ ↦ false
  ]

  -- `baseline_service.capture` for an action.
  unfoldable pub capture : ExecutionJob → PlanRequest → ℕ → Exec ExecutionDb VerificationRun
  unfolding capture_checks captured_run numbered new_run or_value get_or_null
  capture job q index = do
    policy ←
        some_or (w.policy_of (or_value (get_or_null "verification" q.action) (obj end)))
          (value_error "validation error for VerificationPolicy")
    id ← gets (λ db. db.next_verification_id)
    let taken = capture_checks w.srv.python (w.baseline_view index) id policy.checks
    let run = captured_run w.worker_now taken.1 (new_run id job.id q.case_id policy)
    modify (λ db. record db {
      verifications = db.verifications ++ run ∷ [];
      baselines = db.baselines ++ numbered db.next_baseline_id taken.0;
      next_verification_id = db.next_verification_id + 1;
      next_baseline_id = db.next_baseline_id + length taken.0;
    })
    pure run

  verify_call : ExecutionRun → Call
  unfolding format str
  verify_call run = record {
    now = w.worker_now;
    correlation_id = w.uuid (format ("verification-state:" ∷ str run.id ∷ []));
    event_id = w.uuid (format ("verification-event:" ∷ str run.id ∷ []));
  }

  -- `verification_service.evaluate` after an action that succeeded.
  unfoldable pub verify_action : ExecutionRun → VerificationRun → ℕ → Exec ExecutionDb View
  unfolding evaluate verification_view with_verification verify_call
  verify_action run v index =
      zoom verification_view with_verification
        (evaluate w.srv.python (w.later_view index) (verify_call run) v.id (some run.id))

  -- The run as the database has it.
  unfoldable pub reload : ExecutionRun → Exec ExecutionDb ExecutionRun
  unfolding is_execution_run
  reload run = gets (λ db. or_else (find? (is_execution_run run.id) db.runs) run)
