-- ===== src/Approvals/Service.antt =====
-- `ApprovalService`: freezing a plan, deciding on it, and the approved version that may run.
-- SHA-256 over the canonical JSON of a plan, and pydantic's validation of a verification policy,
-- are parameters. The identifiers that Python draws come in with the call.
use agenticops.Prelude.{
  ℕ, ◌+◌, ◌*◌, String, Bool, true, false, not, ◌&&◌, ◌||◌, none, some, List, [], ◌∷◌, ◌++◌, find?,
  update_first, update_all, all, str_eq, str, text_or, format,
}
use agenticops.Prelude.Exec.{
  Exec, lookup_error, value_error, pure, gets, modify, require, some_or, zoom, ◌>>=◌, ◌>>◌,
}
use agenticops.Prelude.Json.{
  Json, Fields, null, text, num, arr, obj, end, field, get_or_null, or_value, items,
}
use agenticops.Cases.Status.{CaseStatus}
use agenticops.Cases.Store.{CaseStateTransition}
use agenticops.Cases.Transition as CaseTransition
use agenticops.Webhooks.Enqueue.{enqueue}
use agenticops.Audit.Log.{Hashing, append_event}
use agenticops.Tools.Spec.{ToolSpec}
use agenticops.Tools.Registry.{Python, get, str_of}
use agenticops.Approvals.Store.{
  RemediationPlanStatus, RemediationPlan, CanonicalPlan, VersionState, PlanVersion, ApprovalDb,
  Principal, is_plan, of_plan, is_active, max_version,
}

pub record Services : Type 0 where
  pub plan_payload_hash : CanonicalPlan → String
  pub policy_valid : Json → Bool
  pub python : Python
  pub hashing : Hashing
  pub tools : List ToolSpec
  pub approval_ttl_hours : ℕ

-- What a call draws: the time, the uuids of the transition and of the outbox event.
pub record Call : Type 0 where
  pub now : ℕ
  pub correlation_id : String
  pub event_id : String

unfoldable pub canonical_plan_payload : RemediationPlan → CanonicalPlan
canonical_plan_payload plan = record {
  plan_id = plan.id;
  case_id = plan.case_id;
  plan_code = plan.plan_code;
  execution_mode = plan.execution_mode;
  risk_level = plan.risk_level;
  summary = text_or plan.summary "";
  plan_payload = plan.plan_payload;
  rollback_payload = plan.rollback_payload;
  safety_checks = plan.safety_checks;
}

-- `status in {DRAFT, PENDING_APPROVAL}`
unfoldable pub may_freeze : RemediationPlanStatus → Bool
may_freeze RemediationPlanStatus.draft = true
may_freeze RemediationPlanStatus.pending_approval = true
may_freeze _ = false

action_list : Json → List Json
action_list (arr vs) = items vs
action_list _ = []

get_in : String → Json → Json
unfolding get_or_null
get_in k (obj fs) = get_or_null k fs
get_in k _ = null

unfoldable pub supersede : RemediationPlan → PlanVersion → PlanVersion
supersede plan v = record v { state = VersionState.superseded }

-- The rows that freezing replaces.
unfoldable pub replaced : ℕ → PlanVersion → Bool
unfolding of_plan is_active
replaced plan_id v = of_plan plan_id v && is_active v.state

unfoldable pub state_request :
    Call
    → RemediationPlan
    → PlanVersion
    → CaseStatus
    → String
    → String
    → String
    → CaseTransition.TransitionRequest
unfolding format str
state_request call plan v to_state reason suffix phase = record {
  case_id = plan.case_id;
  to_state = to_state;
  trigger_type = "approval";
  reason = reason;
  idempotency_key = format ("approval-state:" ∷ str v.id ∷ ":" ∷ suffix ∷ []);
  graph_run_id = none;
  trigger_id = some (str v.id);
  agent_run_id = none;
  task_id = none;
  evidence_ids = [];
  correlation_id = call.correlation_id;
  expected_from = none;
  phase = some phase;
}

module _ (srv : Services) where
  action_verified : Json → Bool
  unfolding get_in str_of or_value get
  action_verified action =
      elim (get srv.tools
        (str_of srv.python (or_value (get_in "tool_id" action) (text "manual.review")))) [
          | none ↦ true
          | some spec ↦
              not (str_eq spec.capability "mutation")
              || srv.policy_valid (get_in "verification" action)
        ]

  -- `_validate_mutation_verification` does not raise.
  unfoldable pub mutations_verified : RemediationPlan → Bool
  unfolding action_list action_verified all
  mutations_verified plan =
      all action_verified (action_list (get_or_null "recommended_actions" plan.plan_payload))

  unfoldable pub plan_digest : RemediationPlan → String
  unfolding canonical_plan_payload
  plan_digest plan = srv.plan_payload_hash (canonical_plan_payload plan)

  -- `_audit`
  unfoldable pub audit_append :
      Call → String → RemediationPlan → PlanVersion → Principal → Fields → Exec ApprovalDb Unit
  unfolding append_event str
  audit_append call event_type plan v principal extra = modify (λ db. record db {
    audit =
        append_event srv.hashing
          (record {
            event_type = event_type;
            outcome = "success";
            actor_user_id = some principal.user_id;
            actor_session_id = principal.session_id;
            target_type = some "plan_version";
            target_id = some (str v.id);
            details = obj (
                field "plan_id" (num plan.id)
                  (field "version" (num v.version) (field "plan_hash" (text v.plan_hash) extra)));
            created_at = call.now;
          })
          db.audit;
  })

  -- `webhook_service.enqueue` for a plan
  unfoldable pub announce : Call → String → RemediationPlan → Fields → Exec ApprovalDb Unit
  unfolding enqueue str
  announce call event_type plan payload = modify (λ db. record db {
    webhooks =
        enqueue call.now
          (record {
            event_id = call.event_id;
            event_type = event_type;
            aggregate_type = "remediation_plan";
            aggregate_id = str plan.id;
            payload = payload;
            endpoint_ids = none;
          })
          db.webhooks;
  })

  unfoldable pub move_case :
      Call → CaseTransition.TransitionRequest → Exec ApprovalDb CaseStateTransition
  move_case call q =
      zoom (λ db. db.cases) (λ cs db. record db { cases = cs })
        (CaseTransition.transition call.now q)

  unfoldable pub new_version : Call → RemediationPlan → Principal → ApprovalDb → PlanVersion
  unfolding plan_digest max_version
  new_version call plan principal db = record {
    id = db.next_version_id;
    remediation_plan_id = plan.id;
    version = max_version plan.id db.versions + 1;
    plan_hash = plan_digest plan;
    canonical_payload = canonical_plan_payload plan;
    state = VersionState.pending;
    initiated_by_user_id = principal.user_id;
    initiated_by_session_id = principal.session_id;
    expires_at = call.now + srv.approval_ttl_hours * 3600;
    decided_at = none;
  }

  -- The writes to the plan and its versions.
  unfoldable pub frozen : RemediationPlan → PlanVersion → ApprovalDb → ApprovalDb
  unfolding replaced supersede is_plan
  frozen plan v db = record db {
    versions = update_all (replaced plan.id) (supersede plan) db.versions ++ v ∷ [];
    next_version_id = db.next_version_id + 1;
    plans =
        update_first (is_plan plan.id)
          (λ p. record p {
            status = RemediationPlanStatus.pending_approval;
            approval_status = "pending";
          })
          db.plans;
  }

  unfoldable pub submit :
      Call → RemediationPlan → PlanVersion → Principal → Exec ApprovalDb PlanVersion
  unfolding frozen move_case state_request audit_append announce str
  submit call plan v principal = do
    modify (frozen plan v)
    _ ← move_case call (
        state_request call plan v CaseStatus.awaiting_approval
          "frozen plan submitted for human approval" "pending" "awaiting_approval")
    audit_append call "approval.initiated" plan v principal end
    announce call "approval.requested" plan (
        field "plan_id" (num plan.id) (
          field "case_id" (num plan.case_id) (
            field "version" (num v.version) (
              field "plan_hash" (text v.plan_hash) (
                field "risk_level" (text plan.risk_level)
                  (field "expires_at" (num v.expires_at) end))))))
    pure v

  unfoldable pub initiate : Call → ℕ → Principal → Exec ApprovalDb PlanVersion
  unfolding submit new_version may_freeze mutations_verified is_plan
  initiate call plan_id principal = do
    found ← gets (λ db. find? (is_plan plan_id) db.plans)
    plan ← some_or found (lookup_error "Plan not found")
    require (may_freeze plan.status)
        (value_error "only draft or pending plans can be frozen for approval")
    require (mutations_verified plan)
        (value_error "mutation action requires a valid verification policy")
    v ← gets (new_version call plan principal)
    submit call plan v principal
