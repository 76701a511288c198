-- ===== src/Execution/Plan.antt =====
-- `ExecutionService.execute_plan`. A session that ends in an exception is rolled back to its last
-- commit; what an executor has done is not.
use agenticops.Prelude.{
  ℕ, ◌+◌, String, Bool, true, false, not, ◌&&◌, Option, none, some, List, [], ◌∷◌, ◌++◌, find?,
  update_first, str_eq, str, format, if◌then◌else◌, length,
}
use agenticops.Prelude.Exec.{
  Exec, Result, ok, err, Error, lookup_error, value_error, type_error, pure, gets, modify, require,
  some_or, zoom, ◌>>=◌, ◌>>◌,
}
use agenticops.Prelude.Json.{Json, bool, num, text, end, field}
use agenticops.Approvals.Store.{
  RemediationPlan, RemediationPlanStatus, PlanVersion, Principal, is_plan,
}
use agenticops.Execution.Store.{Summary, ExecutionJob, ExecutionDb, ExecutionResponse}
use agenticops.Execution.Actions.{World, Progress, fresh_progress}
use agenticops.Cases.Status.{CaseStatus, value}
use agenticops.Cases.Store.{CaseStateTransition, find_case}
use agenticops.Cases.Transition as CaseTransition
use agenticops.Approvals.Decide.{active_approved_version}
use agenticops.Execution.Store.{is_job, has_idempotency}
use agenticops.Execution.Loop.{run_actions}
use agenticops.Execution.Rollback.{execute_rollback, Ending, ending, plan_status_text, job_status}
use agenticops.Execution.Accept.{
  Accepted, previewed, answered, started, recommended, on_approvals, audit_execution,
  announce_execution, accept,
}

unfoldable pub rolled_back : ExecutionDb → ExecutionDb → ExecutionDb
rolled_back committed db = record committed { effects = db.effects }

-- `type(exc).__name__`; a look-up error is that of `one()`.
unfoldable pub error_name : Error → String
error_name (lookup_error _) = "NoResultFound"
error_name (value_error _) = "ValueError"
error_name (type_error _) = "TypeError"
error_name (Error.key_error _) = "KeyError"
error_name (Error.invalid_case_transition _) = "InvalidCaseTransition"
error_name (Error.budget_exhausted _) = "BudgetExhausted"
error_name (Error.lease_unavailable _) = "LeaseUnavailable"

-- The columns of a job that are set at its end.
unfoldable pub ended : String → Option String → ExecutionResponse → ℕ → ExecutionJob → ExecutionJob
ended status error_code response now job = record job {
  status = status;
  error_code = error_code;
  result = some response;
  finished_at = some now;
}

unfoldable pub end_job :
    ExecutionJob → String → Option String → ExecutionResponse → ℕ → Exec ExecutionDb Unit
unfolding is_job ended
end_job job status error_code response now = modify (λ db. record db {
  jobs = update_first (is_job job.id) (ended status error_code response now) db.jobs;
})

-- The idempotency record of a job is completed with its response.
unfoldable pub complete_record : ExecutionJob → ExecutionResponse → Exec ExecutionDb Unit
unfolding has_idempotency
complete_record job response = modify (λ db. record db {
  records =
      update_first (has_idempotency "plan.execute" job.idempotency_key)
        (λ r. record r { status = "completed"; response_snapshot = some response }) db.records;
})

unfoldable pub set_plan_status : ℕ → RemediationPlanStatus → Exec ExecutionDb Unit
unfolding is_plan
set_plan_status plan_id status = modify (λ db. record db {
  approvals = record db.approvals {
    plans = update_first (is_plan plan_id) (λ p. record p { status = status }) db.approvals.plans;
  };
})

module _ (w : World) where
  unfoldable pub state_request :
      ExecutionJob → CaseStatus → String → String → String → CaseTransition.TransitionRequest
  unfolding format str
  state_request job to_state reason suffix phase = record {
    case_id = job.case_id;
    to_state = to_state;
    trigger_type = "execution_job";
    reason = reason;
    idempotency_key = format ("execution-state:" ∷ str job.id ∷ ":" ∷ suffix ∷ []);
    graph_run_id = none;
    trigger_id = some (str job.id);
    agent_run_id = none;
    task_id = none;
    evidence_ids = [];
    correlation_id = w.uuid (format ("execution-state:" ∷ suffix ∷ []));
    expected_from = none;
    phase = some phase;
  }

  unfoldable pub move_case : CaseTransition.TransitionRequest → Exec ExecutionDb CaseStateTransition
  unfolding on_approvals
  move_case q = on_approvals (
      zoom (λ db. db.cases) (λ cs db. record db { cases = cs })
        (CaseTransition.transition w.worker_now q))

  -- The worker boundary: the plan, its case and its approved version, read and checked again.
  unfoldable pub recheck : ExecutionJob → Exec ExecutionDb (RemediationPlan × PlanVersion)
  unfolding is_plan find_case on_approvals active_approved_version
  recheck job = do
    found ← gets (λ db. find? (is_plan job.remediation_plan_id) db.approvals.plans)
    plan ← some_or found (lookup_error "No row was found")
    found_case ← gets (λ db. find_case plan.case_id db.approvals.cases)
    _ ← some_or found_case (lookup_error "No row was found")
    version ← on_approvals (active_approved_version w.srv w.worker_now plan)
    require (str_eq version.plan_hash job.plan_hash)
        (value_error "execution job plan hash mismatch")
    pure (plan, version)

  unfoldable pub refused_response : ExecutionJob → ExecutionResponse
  refused_response job = record {
    success = false;
    plan_id = job.remediation_plan_id;
    case_id = job.case_id;
    status = "failed";
    case_status = "unchanged";
    executions = [];
    execution_job_id = job.id;
  }

  -- After a failed check: the job is failed, its key answered.
  unfoldable pub fail_job : ExecutionJob → Error → Exec ExecutionDb ExecutionResponse
  unfolding end_job complete_record refused_response error_name
  fail_job job e = do
    let response = refused_response job
    end_job job "failed" (some (error_name e)) response w.worker_now
    complete_record job response
    pure response

  unfoldable pub outcome_request :
      ExecutionJob → RemediationPlanStatus → CaseStatus → String → CaseTransition.TransitionRequest
  unfolding state_request format plan_status_text value
  outcome_request job plan_status to_state phase =
      state_request job to_state
        (format ("execution outcome: " ∷ plan_status_text plan_status ∷ []))
        (format ("outcome:" ∷ value to_state ∷ [])) phase

  -- `if target_state is not None`
  unfoldable pub move_to :
      ExecutionJob → RemediationPlanStatus → Option (CaseStatus × String) → Exec ExecutionDb Unit
  unfolding move_case outcome_request
  move_to job plan_status none = pure tt
  move_to job plan_status (some (to_state, phase)) = do
    _ ← move_case (outcome_request job plan_status to_state phase)
    pure tt

  unfoldable pub rollback_if :
      ExecutionJob
      → RemediationPlan
      → String
      → ℕ
      → List Json
      → Exec ExecutionDb (Option Bool × List Summary)
  unfolding execute_rollback
  rollback_if job plan username index [] = pure (none, [])
  rollback_if job plan username index (a ∷ as_) = do
    r ← execute_rollback w job plan username index (a ∷ as_) (true, [])
    pure (some r.0, r.1)

  case_status_text : ExecutionJob → ExecutionDb → String
  unfolding find_case value
  case_status_text job db = elim (find_case job.case_id db.approvals.cases) [
    | none ↦ ""
    | some c ↦ value c.status
  ]

  -- The response, the job, its key, the audit and the event after the actions.
  unfoldable pub finish :
      ExecutionJob
      → RemediationPlan
      → Principal
      → Progress
      → Ending
      → List Summary
      → Exec ExecutionDb ExecutionResponse
  unfolding end_job complete_record case_status_text plan_status_text job_status audit_execution
      announce_execution format
  finish job plan principal p e summaries = do
    case_status ← gets (case_status_text job)
    let response : ExecutionResponse = record {
      success = not p.hard_failure;
      plan_id = plan.id;
      case_id = plan.case_id;
      status = plan_status_text e.plan_status;
      case_status = case_status;
      executions = summaries;
      execution_job_id = job.id;
    }
    let status = job_status (not p.hard_failure) e.plan_status
    end_job job status none response w.worker_now
    complete_record job response
    audit_execution w w.worker_now "execution.completed"
        (if response.success then "success" else "failed") principal job.id
        (field "plan_id" (num plan.id) (field "status" (text status) end))
    announce_execution w w.worker_now (format ("execution." ∷ status ∷ [])) job.id (
        field "execution_job_id" (num job.id) (
          field "plan_id" (num plan.id) (
            field "case_id" (num plan.case_id)
              (field "status" (text status) (field "success" (bool response.success) end)))))
    pure response

  -- The actions of the frozen version, a rollback after a partial success, and the outcome.
  unfoldable pub run_plan :
      ExecutionJob
      → Principal
      → String
      → RemediationPlan × PlanVersion
      → Exec ExecutionDb ExecutionResponse
  unfolding set_plan_status move_case state_request run_actions rollback_if ending move_to finish
      recommended
  run_plan job principal username (plan, version) = do
    let actions = recommended version.canonical_payload.plan_payload
    set_plan_status plan.id RemediationPlanStatus.executing
    _ ← move_case (
        state_request job CaseStatus.executing "approved frozen plan execution started" "started"
          "executing")
    p ← run_actions w job plan username 1 actions fresh_progress
    rolled ← rollback_if job plan username (length actions + 1) (
        if p.allowed_success && p.hard_failure
        then recommended version.canonical_payload.rollback_payload
        else [])
    let e = ending rolled.0 p
    set_plan_status plan.id e.plan_status
    move_to job e.plan_status e.target
    finish job plan principal p e (p.summaries ++ rolled.1)

  -- The worker's transaction ends in a commit, or is rolled back to the rows of `committed`.
  unfoldable pub settle :
      {A : Type 0} → ExecutionDb → Result A × ExecutionDb → Result A × ExecutionDb
  unfolding rolled_back
  settle committed (ok a, db) = (ok a, db)
  settle committed (err e, db) = (err e, rolled_back committed db)

  unfoldable pub work_on :
      ExecutionJob
      → Principal
      → String
      → ExecutionDb
      → Result (RemediationPlan × PlanVersion) × ExecutionDb
      → Result ExecutionResponse × ExecutionDb
  unfolding settle run_plan fail_job
  work_on job principal username committed (ok target, db) =
      settle committed (run_plan job principal username target db)
  work_on job principal username committed (err e, db) = fail_job job e committed

  unfoldable pub work : ExecutionJob → Principal → String → Exec ExecutionDb ExecutionResponse
  unfolding work_on recheck
  work job principal username committed =
      work_on job principal username committed (recheck job committed)

  unfoldable pub answer :
      {A : Type 0}
      → (ExecutionResponse → A)
      → Result ExecutionResponse × ExecutionDb
      → Result A × ExecutionDb
  answer f (ok r, db) = (ok (f r), db)
  answer f (err e, db) = (err e, db)

  -- What follows the acceptance; `others` is what other transactions do between the commit of the
  -- job and the worker's.
  unfoldable pub proceed :
      (ExecutionDb → ExecutionDb)
      → Principal
      → String
      → ExecutionDb
      → Result Accepted × ExecutionDb
      → Result Accepted × ExecutionDb
  unfolding work rolled_back answer
  proceed others principal username before (err e, db) = (err e, rolled_back before db)
  proceed others principal username before (ok (previewed p), db) =
      (ok (previewed p), rolled_back before db)
  proceed others principal username before (ok (answered r), db) =
      (ok (answered r), rolled_back before db)
  proceed others principal username before (ok (started job), db) =
      answer (λ r. answered (some r)) (work job principal username (others db))

  unfoldable pub execute_plan :
      (ExecutionDb → ExecutionDb)
      → ℕ
      → Principal
      → String
      → String
      → Bool
      → Exec ExecutionDb Accepted
  unfolding proceed accept
  execute_plan others plan_id principal username key dry_run before =
      proceed others principal username before
        (accept w plan_id principal username key dry_run before)
