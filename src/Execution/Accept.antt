-- ===== src/Execution/Accept.antt =====
-- The acceptance of an execution: `execute_plan` up to its first commit, and the dry run.
use agenticops.Prelude.{
  ℕ, ◌+◌, ◌*◌, String, Bool, true, false, not, Option, none, some, List, [], ◌∷◌, ◌++◌, find?,
  str_eq, str, format, if◌then◌else◌,
}
use agenticops.Prelude.Exec.{
  Exec, lookup_error, value_error, type_error, pure, gets, modify, require, some_or, zoom, raise,
  ◌>>=◌, ◌>>◌,
}
use agenticops.Prelude.Json.{Json, Fields, num, text, arr, obj, end, field, get_or_null, items}
use agenticops.Tools.Spec.{ToolSpec}
use agenticops.Tools.Registry.{get}
use agenticops.Policy.Guard.{PolicyDecision}
use agenticops.Approvals.Store.{RemediationPlan, PlanVersion, Principal, ApprovalDb, is_plan}
use agenticops.Execution.Requests.{PlanRequest}
use agenticops.Execution.Store.{ExecutionJob, ExecutionDb, ExecutionResponse, IdempotencyRecord}
use agenticops.Execution.Actions.{World, guard_check}
use agenticops.Cases.Store.{find_case}
use agenticops.Approvals.Decide.{active_approved_version}
use agenticops.Audit.Log.{append_event}
use agenticops.Webhooks.Enqueue.{enqueue}
use agenticops.Execution.Actions.{risk_of}
use agenticops.Execution.Store.{for_version, has_idempotency}
use agenticops.Execution.Loop.{request_for}

-- An entry of a dry run.
pub record PreviewEntry : Type 0 where
  pub tool_id : String
  pub action_index : ℕ
  pub allowed : Bool
  pub blocked_reason : Option String
  pub effective_risk : ℕ
  pub mode : String
  pub device_ip : Json
  pub host : Json

pub record Preview : Type 0 where
  pub plan_id : ℕ
  pub case_id : ℕ
  pub plan_version_id : ℕ
  pub plan_hash : String
  pub executions : List PreviewEntry

-- `none` as an answer stands for the empty dict.
pub data Accepted : Type 0 where
  previewed : Preview → Accepted
  answered : Option ExecutionResponse → Accepted
  started : ExecutionJob → Accepted

action_list : Json → List Json
unfolding items
action_list (arr vs) = items vs
action_list _ = []

-- `(payload or {}).get("recommended_actions") or []`
unfoldable pub recommended : Fields → List Json
unfolding action_list get_or_null
recommended payload = action_list (get_or_null "recommended_actions" payload)

unfoldable pub has_actions : List Json → Bool
has_actions [] = false
has_actions (_ ∷ _) = true

unfoldable pub on_approvals : {A : Type 0} → Exec ApprovalDb A → Exec ExecutionDb A
on_approvals = zoom (λ db. db.approvals) (λ a db. record db { approvals = a })

-- The columns that `execute_plan` gives a new job.
unfoldable pub new_job : ℕ → RemediationPlan → PlanVersion → Principal → String → ExecutionJob
new_job id plan version principal key = record {
  id = id;
  plan_version_id = version.id;
  remediation_plan_id = plan.id;
  case_id = plan.case_id;
  plan_hash = version.plan_hash;
  idempotency_key = key;
  status = "running";
  requested_by_user_id = principal.user_id;
  requested_by_session_id = principal.session_id;
  result = none;
  error_code = none;
  finished_at = none;
}

module _ (w : World) where
  unfoldable pub preview_entry : ℕ → PlanRequest → Option ToolSpec → PolicyDecision → PreviewEntry
  unfolding risk_of get_or_null
  preview_entry index q spec decision = record {
    tool_id = q.tool.tool_id;
    action_index = index;
    allowed = decision.allowed;
    blocked_reason = decision.blocked_reason;
    effective_risk = risk_of spec;
    mode = q.tool.mode;
    device_ip = get_or_null "device_ip" q.tool.target;
    host = get_or_null "host" q.tool.target;
  }

  unfoldable pub preview_actions :
      RemediationPlan → String → ℕ → List Json → Exec ExecutionDb (List PreviewEntry)
  unfolding preview_entry guard_check request_for get
  preview_actions plan username index [] = pure []
  preview_actions plan username index (action ∷ rest) = do
    q ← some_or (request_for w plan username action) (type_error "action is not a dict")
    decision ← guard_check w plan q
    entries ← preview_actions plan username (index + 1) rest
    pure (preview_entry index q (get w.srv.tools q.tool.tool_id) decision ∷ entries)

  -- `_dry_run_preview`
  unfoldable pub dry_run_preview :
      RemediationPlan → PlanVersion → List Json → String → Exec ExecutionDb Accepted
  unfolding preview_actions
  dry_run_preview plan version actions username = do
    entries ← preview_actions plan username 1 actions
    pure (
        previewed (record {
          plan_id = plan.id;
          case_id = plan.case_id;
          plan_version_id = version.id;
          plan_hash = version.plan_hash;
          executions = entries;
        }))

  unfoldable pub audit_execution :
      ℕ → String → String → Principal → ℕ → Fields → Exec ExecutionDb Unit
  unfolding append_event str
  audit_execution now event_type outcome principal job_id details = modify (λ db. record db {
    approvals = record db.approvals {
      audit =
          append_event w.srv.hashing
            (record {
              event_type = event_type;
              outcome = outcome;
              actor_user_id = some principal.user_id;
              actor_session_id = principal.session_id;
              target_type = some "execution_job";
              target_id = some (str job_id);
              details = obj details;
              created_at = now;
            })
            db.approvals.audit;
    };
  })

  unfoldable pub announce_execution : ℕ → String → ℕ → Fields → Exec ExecutionDb Unit
  unfolding enqueue str format
  announce_execution now event_type job_id payload = modify (λ db. record db {
    approvals = record db.approvals {
      webhooks =
          enqueue now
            (record {
              event_id = w.uuid (format (event_type ∷ ":" ∷ str job_id ∷ []));
              event_type = event_type;
              aggregate_type = "execution_job";
              aggregate_id = str job_id;
              payload = payload;
              endpoint_ids = none;
            })
            db.approvals.webhooks;
    };
  })

  -- A key that was used before: its answer, or a refusal.
  unfoldable pub replay : IdempotencyRecord → String → Exec ExecutionDb Accepted
  replay r request_hash =
      if not (str_eq r.request_hash request_hash)
      then raise (value_error "idempotency key was already used for a different request")
      else if str_eq r.status "completed"
      then pure (answered r.response_snapshot)
      else raise (value_error "execution with this idempotency key is still in progress")

  -- A version that has a job: its answer, or a refusal.
  unfoldable pub prior_answer : Option ExecutionResponse → Exec ExecutionDb Accepted
  prior_answer (some response) = pure (answered (some response))
  prior_answer none = raise (value_error "this approved plan version already has an execution job")

  -- The rows, the audit and the event of a new job.
  unfoldable pub start :
      RemediationPlan → PlanVersion → Principal → String → String → Exec ExecutionDb Accepted
  unfolding new_job audit_execution announce_execution str
  start plan version principal key request_hash = do
    job ← gets (λ db. new_job db.next_job_id plan version principal key)
    modify (λ db. record db {
      jobs = db.jobs ++ job ∷ [];
      next_job_id = db.next_job_id + 1;
      records =
          db.records
          ++ record {
            scope = "plan.execute";
            idempotency_key = key;
            request_hash = request_hash;
            status = "in_progress";
            resource_id = str job.id;
            response_snapshot = none;
            expires_at = w.now + w.idempotency_ttl_hours * 3600;
          }
            ∷ [];
    })
    audit_execution w.now "execution.accepted" "success" principal job.id (
        field "plan_id" (num plan.id) (
          field "plan_version_id" (num version.id)
            (field "plan_hash" (text version.plan_hash) end)))
    announce_execution w.now "execution.accepted" job.id (
        field "execution_job_id" (num job.id)
          (field "plan_id" (num plan.id) (field "case_id" (num plan.case_id) end)))
    pure (started job)

  unfoldable pub start_unless :
      Option IdempotencyRecord
      → Option ExecutionJob
      → RemediationPlan
      → PlanVersion
      → Principal
      → String
      → String
      → Exec ExecutionDb Accepted
  unfolding replay prior_answer start
  start_unless (some r) prior plan version principal key request_hash = replay r request_hash
  start_unless none (some job) plan version principal key request_hash = prior_answer job.result
  start_unless none none plan version principal key request_hash =
      start plan version principal key request_hash

  unfoldable pub accept_version :
      RemediationPlan → PlanVersion → Principal → String → Exec ExecutionDb Accepted
  unfolding start_unless has_idempotency for_version
  accept_version plan version principal key = do
    existing ← gets (λ db. find? (has_idempotency "plan.execute" key) db.records)
    prior ← gets (λ db. find? (for_version version.id) db.jobs)
    start_unless existing prior plan version principal key
        (w.request_digest plan.id version.id version.plan_hash)

  -- `execute_plan` up to the first commit.
  unfoldable pub accept : ℕ → Principal → String → String → Bool → Exec ExecutionDb Accepted
  unfolding accept_version dry_run_preview recommended has_actions on_approvals
      active_approved_version is_plan find_case new_job
  accept plan_id principal username key dry_run = do
    found ← gets (λ db. find? (is_plan plan_id) db.approvals.plans)
    plan ← some_or found (lookup_error "Plan not found")
    found_case ← gets (λ db. find_case plan.case_id db.approvals.cases)
    _ ← some_or found_case (lookup_error "Case not found")
    version ← on_approvals (active_approved_version w.srv w.now plan)
    let actions = recommended version.canonical_payload.plan_payload
    require (has_actions actions) (value_error "Plan has no recommended actions")
    if dry_run
        then dry_run_preview plan version actions username
        else accept_version plan version principal key
