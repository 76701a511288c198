-- ===== src/Tests/ApprovalTests.antt =====
-- A plan that is frozen, approved and used; and the audit log.
use agenticops.Prelude.{
  ℕ, ◌≤◌, ◌≡◌, refl, arith, ◌↔◌, false, none, some, [], ◌∷◌, find?, count, IsKeyedBelow, where_all,
}
use agenticops.Prelude.Exec.{ok}
use agenticops.Prelude.Json.{obj, end}
use agenticops.Audit.Log.{AuditPayload, Hashing, append_event}
use agenticops.Audit.Chain.{IsChained, append_event-IsChained}
use agenticops.Approvals.Store.{
  RemediationPlanStatus, RemediationPlan, VersionState, PlanVersion, ApprovalDb, Principal, is_plan,
  latest,
}
use agenticops.Approvals.Service.{
  Services, Call, canonical_plan_payload, plan_digest, replaced, initiate,
}
use agenticops.Approvals.Decide.{awaits, decide, active_approved_version}
use agenticops.Approvals.Binding.{IsUsable, active_approved_version_iff}
use agenticops.Approvals.Single.{IsSingle}
use agenticops.Approvals.Active.{initiate-IsSingle, decide-IsSingle}
use agenticops.Approvals.Grant.{approved_row, decide_active}

abbrev hashing : Hashing
hashing = record { sha256 = λ s. s; canonical_json = λ p. p.event_type }

abbrev services : Services
services = record {
  plan_payload_hash = λ c. c.summary;
  policy_valid = λ v. false;
  python = record { show = λ v. ""; search = λ pattern s. false };
  hashing = hashing;
  tools = [];
  approval_ttl_hours = 24;
}

abbrev call : Call
call = record { now = 1000; correlation_id = "c-1"; event_id = "e-1" }

abbrev human : Principal
human = record { user_id = 3; session_id = some "s-1" }

abbrev plan : RemediationPlan
plan = record {
  id = 1;
  case_id = 7;
  plan_code = "P-1";
  status = RemediationPlanStatus.pending_approval;
  execution_mode = "manual";
  approval_status = "pending";
  risk_level = "medium";
  summary = some "restart";
  plan_payload = end;
  rollback_payload = end;
  safety_checks = end;
  approved_at = none;
}

abbrev version : PlanVersion
version = record {
  id = 1;
  remediation_plan_id = 1;
  version = 1;
  plan_hash = "restart";
  canonical_payload = canonical_plan_payload plan;
  state = VersionState.pending;
  initiated_by_user_id = 3;
  initiated_by_session_id = some "s-1";
  expires_at = 5000;
  decided_at = none;
}

abbrev approval_db : ApprovalDb
approval_db = record {
  plans = plan ∷ [];
  versions = version ∷ [];
  decisions = [];
  audit = [];
  cases = record { cases = []; transitions = []; timeline = []; metrics = [] };
  webhooks = record {
    endpoints = [];
    events = [];
    deliveries = [];
    next_event_id = 1;
    next_delivery_id = 1;
  };
  next_version_id = 2;
}

one_active : (n : ℕ) → count (replaced n) (version ∷ []) ≤ 1
unfolding count where_all
one_active n = ground arith

version_keyed : IsKeyedBelow (λ v. v.id) 2 (version ∷ [])
unfolding IsKeyedBelow find?
version_keyed = (omega arith, refl, tt)

approval_db-IsSingle : IsSingle approval_db
approval_db-IsSingle = record { keyed = version_keyed; single = one_active }

initiate-IsSingle_example : IsSingle (initiate services call 1 human approval_db).1
initiate-IsSingle_example = initiate-IsSingle services call 1 human approval_db approval_db-IsSingle

decide-IsSingle_example : IsSingle (decide services call 1 "Rejected" none human approval_db).1
decide-IsSingle_example =
    decide-IsSingle services call 1 "Rejected" none human approval_db approval_db-IsSingle

plan_found : find? (is_plan 1) approval_db.plans ≡ some plan
unfolding find? is_plan
plan_found = refl

version_pending : latest (awaits 1) approval_db.versions ≡ some version
unfolding latest awaits
version_pending = refl

plan_unchanged : plan_digest services plan ≡ "restart"
unfolding plan_digest
plan_unchanged = refl

decide_active_example :
    (active_approved_version services 4000 plan
      (decide services call 1 "approved" (some "go") human approval_db).1).0
    ≡ ok (approved_row 1000 version)
decide_active_example =
    decide_active services call (some "go") human plan plan version 4000 approval_db
      approval_db-IsSingle plan_found version_pending (omega arith) plan_unchanged (omega arith)
      refl plan_unchanged

active_approved_version_iff_example :
    ((active_approved_version services 4000 plan approval_db).0 ≡ ok version)
    ↔ IsUsable services 4000 plan approval_db version
active_approved_version_iff_example =
    active_approved_version_iff services 4000 plan approval_db version

abbrev audit_payload : AuditPayload
audit_payload = record {
  event_type = "approval.initiated";
  outcome = "success";
  actor_user_id = some 3;
  actor_session_id = none;
  target_type = none;
  target_id = none;
  details = obj end;
  created_at = 1000;
}

append_event-IsChained_example :
    IsChained hashing none
      (append_event hashing audit_payload (append_event hashing audit_payload []))
unfolding IsChained
append_event-IsChained_example =
    append_event-IsChained hashing audit_payload (append_event hashing audit_payload [])
      (append_event-IsChained hashing audit_payload [] tt)
