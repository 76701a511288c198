-- ===== src/Tests/ExecutionTests.antt =====
-- An approved plan of one reading command: executed, tried out, and executed again.
use agenticops.Prelude.{
  zero, suc, ◌≡◌, refl, arith, true, false, none, some, [], ◌∷◌, find?, update_first, map, any,
}
use agenticops.Prelude.Exec.{err, invalid_case_transition}
use agenticops.Prelude.Json.{Json, null, text, num, arr, obj, nil, cons, end, field}
use agenticops.Cases.Status.{CaseStatus, status_eq, status_mem, allowed}
use agenticops.Cases.Store.{CaseRecord, append, find_case}
use agenticops.Cases.Transition.{has_key, transition, fresh_transition, record_move, timeline_row}
use agenticops.Tools.Spec.{ToolSpec}
use agenticops.Policy.Guard.{needs_approval, runtime_gate, execution_gate}
use agenticops.Approvals.Store.{
  RemediationPlanStatus, RemediationPlan, VersionState, PlanVersion, ApprovalDb, Principal, is_plan,
  latest,
}
use agenticops.Approvals.Service.{Services, canonical_plan_payload, plan_digest}
use agenticops.Approvals.Decide.{granted}
use agenticops.Approvals.Binding.{IsUsable}
use agenticops.Verifications.Store.{verified, VerificationRun, found, VerificationDb}
use agenticops.Verifications.Checks.{Adapters, unavailable, rows}
use agenticops.Verifications.Evaluate.{Call, sibling_open, case_request, apply_case_state}
use agenticops.Verifications.Immediate.{verified_while_executing}
use agenticops.Execution.Engine.{
  ExecutionStatus-discrete, ssh, Executor, returned, default_retry_policy, execute_action,
}
use agenticops.Execution.Attempts.{IsTrial, execute_action-IsTrial}
use agenticops.Execution.Requests.{CaseColumns}
use agenticops.Execution.Store.{ExecutionJob, ExecutionDb, for_version}
use agenticops.Execution.Actions.{World}
use agenticops.Execution.Plan.{execute_plan}
use agenticops.Execution.Accept.{accept}
use agenticops.Execution.Frame.{Calls}
use agenticops.Execution.Safety.{IsApproved, execute_plan-Calls, dry_run_unchanged}
use agenticops.Execution.Once.{IsOnce, execute_plan-IsOnce}
use agenticops.Execution.Repeat.{executed_version_unchanged}

abbrev tool : ToolSpec
tool = record {
  tool_id = "ssh.show_command";
  name = "show";
  category = "device";
  capability = "read_only";
  executor_type = "ssh";
  risk_level = 0;
  modes = [];
  executable = true;
  allowed_commands = [];
  blocked_patterns = [];
  requires_approval = false;
  timeout = 30;
  param_schema = end;
  agent_selectable = true;
  read_only = true;
  target_scope = [];
  vendor_support = [];
  output_parser = none;
  evidence_mapper = none;
}

abbrev services : Services
services = record {
  plan_payload_hash = λ c. c.summary;
  policy_valid = λ v. false;
  python = record { show = λ v. ""; search = λ pattern s. false };
  hashing = record { sha256 = λ s. s; canonical_json = λ p. p.event_type };
  tools = tool ∷ [];
  approval_ttl_hours = 24;
}

-- An executor that fails at first and succeeds then.
abbrev device : Executor
device = record {
  validate_config = λ config. true;
  execute = λ task attempt config.
      returned (field "status" (text (elim attempt [ zero ↦ "failed" | suc n ↦ "success" ])) end);
}

abbrev silent : Adapters
silent = record {
  get_recent_alerts = λ host. unavailable none;
  collect_logs = λ query time_range. rows 0;
}

abbrev columns : CaseColumns
columns = record {
  site_id = null;
  netbox_device_id = null;
  device_ip = text "10.0.0.1";
  host = null;
  case_metadata = end;
}

abbrev world : World
world = record {
  srv = services;
  executors = λ type. some device;
  observe_only = false;
  now = 1000;
  worker_now = 1001;
  columns = λ case_id. columns;
  policy_of = λ v. none;
  baseline_view = λ index. silent;
  later_view = λ index. silent;
  request_digest = λ plan_id version_id plan_hash. plan_hash;
  action_digest = λ q. q.tool.tool_id;
  uuid = λ place. place;
  idempotency_ttl_hours = 24;
}

abbrev action : Json
action = obj (field "action_type" (text "ssh_show") end)

abbrev plan : RemediationPlan
plan = record {
  id = 1;
  case_id = 7;
  plan_code = "P-1";
  status = RemediationPlanStatus.approved;
  execution_mode = "manual";
  approval_status = "approved";
  risk_level = "low";
  summary = some "look";
  plan_payload = field "recommended_actions" (arr (cons action nil)) end;
  rollback_payload = end;
  safety_checks = end;
  approved_at = some 900;
}

abbrev version : PlanVersion
version = record {
  id = 4;
  remediation_plan_id = 1;
  version = 1;
  plan_hash = "look";
  canonical_payload = canonical_plan_payload plan;
  state = VersionState.approved;
  initiated_by_user_id = 3;
  initiated_by_session_id = some "s-1";
  expires_at = 5000;
  decided_at = some 900;
}

abbrev the_case : CaseRecord
the_case = record {
  id = 7;
  status = CaseStatus.planned;
  current_phase = "planned";
  last_activity_at = 900;
  closed_at = none;
}

abbrev approvals : ApprovalDb
approvals = record {
  plans = plan ∷ [];
  versions = version ∷ [];
  decisions = [];
  audit = [];
  cases = record { cases = the_case ∷ []; transitions = []; timeline = []; metrics = [] };
  webhooks = record {
    endpoints = [];
    events = [];
    deliveries = [];
    next_event_id = 1;
    next_delivery_id = 1;
  };
  next_version_id = 5;
}

abbrev store : ExecutionDb
store = record {
  approvals = approvals;
  settings = record { row = some (field "autonomy_level" (num 2) end) };
  jobs = [];
  records = [];
  runs = [];
  results = [];
  verifications = [];
  baselines = [];
  checks = [];
  effects = [];
  next_job_id = 1;
  next_run_id = 1;
  next_verification_id = 1;
  next_baseline_id = 1;
}

abbrev human : Principal
human = record { user_id = 3; session_id = some "s-1" }

-- The device is called twice for the one action.
executed :
    map (λ e. e.calls) (execute_plan world (λ db. db) 1 human "ann" "key-1" false store).1.effects
    ≡ 2 ∷ []
unfolding execute_plan find? update_first transition fresh_transition record_move timeline_row
    append status_eq status_mem allowed needs_approval runtime_gate execution_gate
    ExecutionStatus-discrete
executed = refl

execute_action-IsTrial_example :
    IsTrial
      (λ attempt. device.execute 1 attempt end)
      default_retry_policy
      (execute_action (λ type. some device) false (record { row = none }) 1 ssh end none)
execute_action-IsTrial_example =
    execute_action-IsTrial (λ type. some device) false (record { row = none }) 1 ssh end none device
      refl

execute_plan-Calls_example :
    Calls
      (IsApproved world 1 "ann" (accept world 1 human "ann" "key-1" false store).1)
      store
      (execute_plan world (λ db. db) 1 human "ann" "key-1" false store).1
execute_plan-Calls_example =
    execute_plan-Calls world (λ db. db) 1 human "ann" "key-1" false store (λ db. refl)

dry_run_unchanged_example :
    (execute_plan world (λ db. db) 1 human "ann" "key-1" true store).1 ≡ store
dry_run_unchanged_example = dry_run_unchanged world (λ db. db) 1 human "ann" "key-1" store

no_jobs : IsOnce store.jobs
unfolding IsOnce
no_jobs = tt

execute_plan-IsOnce_example :
    IsOnce (execute_plan world (λ db. db) 1 human "ann" "key-1" false store).1.jobs
execute_plan-IsOnce_example =
    execute_plan-IsOnce world (λ db. db) 1 human "ann" "key-1" false store (λ db o. o) no_jobs

-- A job that was interrupted, and has no result.
abbrev job : ExecutionJob
job = record {
  id = 1;
  plan_version_id = 4;
  remediation_plan_id = 1;
  case_id = 7;
  plan_hash = "look";
  idempotency_key = "key-0";
  status = "running";
  requested_by_user_id = 3;
  requested_by_session_id = some "s-1";
  result = none;
  error_code = none;
  finished_at = none;
}

plan_found : find? (is_plan 1) approvals.plans ≡ some plan
unfolding find? is_plan
plan_found = refl

newest : latest (granted 1) approvals.versions ≡ some version
unfolding latest granted
newest = refl

unchanged : plan_digest services plan ≡ "look"
unfolding plan_digest
unchanged = refl

usable : IsUsable services 1000 plan approvals version
usable = record {
  newest = newest;
  same_plan = refl;
  is_approved = refl;
  in_time = omega arith;
  unchanged = unchanged;
}

job_found : find? (for_version 4) (job ∷ []) ≡ some job
unfolding find? for_version
job_found = refl

executed_version_unchanged_example :
    (execute_plan world (λ db. db) 1 human "ann" "key-1" false (record store { jobs = job ∷ [] })).1
    ≡ record store { jobs = job ∷ [] }
executed_version_unchanged_example =
    executed_version_unchanged world (λ db. db) 1 plan version job human "ann" "key-1" false
      (record store { jobs = job ∷ [] }) plan_found usable job_found

abbrev verdict_call : Call
verdict_call = record { now = 1001; correlation_id = "c-1"; event_id = "e-1" }

abbrev verification_run : VerificationRun
verification_run = record {
  id = 1;
  execution_job_id = 1;
  execution_run_id = some 1;
  case_id = 7;
  policy = record { checks = []; max_rounds = 3; interval_seconds = 60 };
  status = found verified;
  rounds_completed = 1;
  next_check_at = none;
  verdict_reason = none;
  finished_at = some 1001;
}

abbrev executing_case : CaseRecord
executing_case = record the_case { status = CaseStatus.executing }

abbrev verification_db : VerificationDb
verification_db = record {
  runs = verification_run ∷ [];
  baselines = [];
  checks = [];
  executions = [];
  cases = record { cases = executing_case ∷ []; transitions = []; timeline = []; metrics = [] };
  webhooks = approvals.webhooks;
}

case_found : find_case 7 verification_db.cases ≡ some executing_case
unfolding find_case find?
case_found = refl

alone : any (sibling_open verification_run) verification_db.runs ≡ false
unfolding any sibling_open
alone = refl

first_key :
    find?
      (has_key (case_request verdict_call verification_run verified false).idempotency_key)
      verification_db.cases.transitions
    ≡ none
unfolding find?
first_key = refl

verified_while_executing_example :
    (apply_case_state verdict_call verification_run verified verification_db).0
    ≡ err (invalid_case_transition "executing")
verified_while_executing_example =
    verified_while_executing verdict_call verification_run executing_case verification_db case_found
      refl alone first_key
