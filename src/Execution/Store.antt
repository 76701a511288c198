-- ===== src/Execution/Store.antt =====
-- The rows of an execution (backend/models/execution_job.py and agenticops.py), what the service
-- answers, and the calls that leave the system.
use agenticops.Prelude.{ℕ, String, Bool, Option, none, some, List, ◌==◌, map, find?, str_eq, ◌&&◌}
use agenticops.Prelude.Json.{Json, Fields}
use agenticops.Policy.Settings.{SettingsDb}
use agenticops.Policy.Guard.{ExecutionRunStatus, PolicyDecision, RunRow, PolicyDb}
use agenticops.Approvals.Store.{ApprovalDb}
use agenticops.Verifications.Store.{
  VerificationRun, BaselineSnapshot, VerificationCheck, ExecutionRow, VerificationDb,
}
use agenticops.Execution.Requests.{PlanRequest}

pub record ExecutionRun : Type 0 where
  pub id : ℕ
  pub case_id : ℕ
  pub remediation_plan_id : ℕ
  pub executor_type : String
  pub executor_name : String
  pub status : ExecutionRunStatus
  pub command_summary : Json
  pub request : PlanRequest
  pub action_index : ℕ
  pub target_id : Option String
  pub decision : PolicyDecision
  pub result_payload : Fields
  pub error_message : Json
  pub started_at : ℕ
  pub finished_at : Option ℕ
  pub verified_at : Option ℕ

-- An entry of the answer's list of executions.
pub record Summary : Type 0 where
  pub execution_run_id : Option ℕ
  pub tool_id : String
  pub status : String
  pub blocked_reason : Option String
  pub allowed : Bool
  pub effective_risk : ℕ
  pub rollback : Bool

-- The result column of an action: a summary, alone or with the executor's result.
pub data ActionDetail : Type 0 where
  plain : Summary → ActionDetail
  detailed : Summary → Fields → ActionDetail

pub record ExecutionActionResult : Type 0 where
  pub execution_job_id : ℕ
  pub action_index : ℕ
  pub tool_id : String
  pub capability : String
  pub status : String
  pub request_hash : String
  pub result : ActionDetail
  pub error_message : Option String
  pub finished_at : ℕ

pub record ExecutionResponse : Type 0 where
  pub success : Bool
  pub plan_id : ℕ
  pub case_id : ℕ
  pub status : String
  pub case_status : String
  pub executions : List Summary
  pub execution_job_id : ℕ

-- The result is `none` while it is the empty dict.
pub record ExecutionJob : Type 0 where
  pub id : ℕ
  pub plan_version_id : ℕ
  pub remediation_plan_id : ℕ
  pub case_id : ℕ
  pub plan_hash : String
  pub idempotency_key : String
  pub status : String
  pub requested_by_user_id : ℕ
  pub requested_by_session_id : Option String
  pub result : Option ExecutionResponse
  pub error_code : Option String
  pub finished_at : Option ℕ

pub record IdempotencyRecord : Type 0 where
  pub scope : String
  pub idempotency_key : String
  pub request_hash : String
  pub status : String
  pub resource_id : String
  pub response_snapshot : Option ExecutionResponse
  pub expires_at : ℕ

-- How often an executor was called for a run, and what a guard would have read of the store then.
pub record Effect : Type 0 where
  pub execution_run_id : ℕ
  pub request : PlanRequest
  pub calls : ℕ
  pub store : PolicyDb

pub record ExecutionDb : Type 0 where
  pub approvals : ApprovalDb
  pub settings : SettingsDb
  pub jobs : List ExecutionJob
  pub records : List IdempotencyRecord
  pub runs : List ExecutionRun
  pub results : List ExecutionActionResult
  pub verifications : List VerificationRun
  pub baselines : List BaselineSnapshot
  pub checks : List VerificationCheck
  pub effects : List Effect
  pub next_job_id : ℕ
  pub next_run_id : ℕ
  pub next_verification_id : ℕ
  pub next_baseline_id : ℕ

unfoldable pub is_job : ℕ → ExecutionJob → Bool
is_job n j = j.id == n

unfoldable pub is_execution_run : ℕ → ExecutionRun → Bool
is_execution_run n r = r.id == n

unfoldable pub for_version : ℕ → ExecutionJob → Bool
for_version n j = j.plan_version_id == n

unfoldable pub has_idempotency : String → String → IdempotencyRecord → Bool
has_idempotency scope key r = str_eq r.scope scope && str_eq r.idempotency_key key

-- What the guard reads of a run, and of the store.
unfoldable pub run_row : ExecutionRun → RunRow
run_row r = record { status = r.status; started_at = r.started_at; target_id = r.target_id }

unfoldable pub policy_view : ExecutionDb → PolicyDb
unfolding run_row
policy_view db = record { settings = db.settings; runs = map run_row db.runs }

unfoldable pub with_settings : Option PolicyDb → ExecutionDb → ExecutionDb
with_settings none db = db
with_settings (some p) db = record db { settings = p.settings }

-- What a verification reads and writes of the runs.
unfoldable pub execution_row : ExecutionRun → ExecutionRow
execution_row r = record { id = r.id; status = r.status; verified_at = r.verified_at }

unfoldable pub verification_view : ExecutionDb → VerificationDb
unfolding execution_row
verification_view db = record {
  runs = db.verifications;
  baselines = db.baselines;
  checks = db.checks;
  executions = map execution_row db.runs;
  cases = db.approvals.cases;
  webhooks = db.approvals.webhooks;
}

unfoldable pub with_row : Option ExecutionRow → ExecutionRun → ExecutionRun
with_row none r = r
with_row (some e) r = record r { status = e.status; verified_at = e.verified_at }

unfoldable pub with_verification : VerificationDb → ExecutionDb → ExecutionDb
unfolding with_row
with_verification v db = record db {
  verifications = v.runs;
  baselines = v.baselines;
  checks = v.checks;
  runs = map (λ r. with_row (find? (λ e. e.id == r.id) v.executions) r) db.runs;
  approvals = record db.approvals { cases = v.cases; webhooks = v.webhooks };
}
