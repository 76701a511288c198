-- ===== src/Approvals/Decide.antt =====
-- `ApprovalService.decide` and `active_approved_version`. What a call finds wrong with a version, its
-- time or its hash, it writes down before it raises.
use agenticops.Prelude.{
  ℕ, String, Bool, true, false, not, ◌&&◌, ◌||◌, Option, none, some, [], ◌∷◌, ◌++◌, leb, find?,
  update_first, str_eq, lower, text_or, take_text, format, if◌then◌else◌,
}
use agenticops.Prelude.Exec.{
  Exec, lookup_error, value_error, pure, raise, gets, modify, require, some_or, ◌>>=◌, ◌>>◌,
}
use agenticops.Prelude.Json.{text, num, end, field}
use agenticops.Cases.Status.{CaseStatus}
use agenticops.Approvals.Service.{
  Services, Call, plan_digest, audit_append, announce, move_case, state_request,
}
use agenticops.Approvals.Store.{
  RemediationPlanStatus, RemediationPlan, VersionState, PlanVersion, ApprovalDecision, ApprovalDb,
  Principal, is_plan, is_version, of_plan, is_pending, is_approved, latest,
}

-- `normalized in {"approved", "rejected"}`
unfoldable pub is_decision : String → Bool
is_decision s = str_eq s "approved" || str_eq s "rejected"

-- The pending versions, and the approved versions, of a plan.
unfoldable pub awaits : ℕ → PlanVersion → Bool
unfolding of_plan is_pending
awaits plan_id v = of_plan plan_id v && is_pending v.state

unfoldable pub granted : ℕ → PlanVersion → Bool
unfolding of_plan is_approved
granted plan_id v = of_plan plan_id v && is_approved v.state

-- A version that may not be used any more, and the plan back in draft.
unfoldable pub withdrawn :
    VersionState → String → RemediationPlan → PlanVersion → ApprovalDb → ApprovalDb
unfolding is_version is_plan
withdrawn state approval_status plan v db = record db {
  versions = update_first (is_version v.id) (λ w. record w { state = state }) db.versions;
  plans =
      update_first (is_plan plan.id)
        (λ p. record p { status = RemediationPlanStatus.draft; approval_status = approval_status })
        db.plans;
}

unfoldable pub withdraw :
    {A : Type 0}
    → VersionState
    → String
    → RemediationPlan
    → PlanVersion
    → String
    → Exec ApprovalDb A
unfolding withdrawn
withdraw state approval_status plan v message = do
  modify (withdrawn state approval_status plan v)
  raise (value_error message)

decided_state : Bool → VersionState
decided_state yes_ = if yes_ then VersionState.approved else VersionState.rejected

unfoldable pub decision_row : String → Option String → PlanVersion → Principal → ApprovalDecision
decision_row decision comment v principal = record {
  plan_version_id = v.id;
  decision = decision;
  comment = take_text 4000 (text_or comment "");
  decided_by_user_id = principal.user_id;
  decided_by_session_id = principal.session_id;
  decided_plan_hash = v.plan_hash;
}

-- The writes of a decision to the version and the plan.
unfoldable pub decided :
    Call
    → String
    → Option String
    → RemediationPlan
    → PlanVersion
    → Principal
    → ApprovalDb
    → ApprovalDb
unfolding decision_row decided_state is_version is_plan
decided call decision comment plan v principal db =
    let yes_ = str_eq decision "approved" in
    record db {
      decisions = db.decisions ++ decision_row decision comment v principal ∷ [];
      versions =
          update_first (is_version v.id)
            (λ w. record w { state = decided_state yes_; decided_at = some call.now }) db.versions;
      plans =
          update_first (is_plan plan.id)
            (λ p. record p {
              approval_status = decision;
              status =
                  if yes_ then RemediationPlanStatus.approved else RemediationPlanStatus.cancelled;
              approved_at = if yes_ then some call.now else none;
            })
            db.plans;
    }

module _ (srv : Services) where
  -- A rejection sends the case back to planning.
  unfoldable pub return_case : Bool → Call → RemediationPlan → PlanVersion → Exec ApprovalDb Unit
  unfolding move_case state_request
  return_case false call plan v = pure tt
  return_case true call plan v = do
    _ ← move_case srv call (
        state_request call plan v CaseStatus.planning "human rejected frozen plan" "rejected"
          "approval_rejected")
    pure tt

  unfoldable pub settle :
      Call
      → String
      → Option String
      → RemediationPlan
      → PlanVersion
      → Principal
      → Exec ApprovalDb ApprovalDecision
  unfolding decided return_case audit_append announce format
  settle call decision comment plan v principal = do
    modify (decided call decision comment plan v principal)
    return_case (str_eq decision "rejected") call plan v
    audit_append srv call "approval.decided" plan v principal (field "decision" (text decision) end)
    announce srv call (format ("approval." ∷ decision ∷ [])) plan (
        field "plan_id" (num plan.id) (
          field "case_id" (num plan.case_id) (
            field "version" (num v.version) (
              field "plan_hash" (text v.plan_hash) (
                field "decision" (text decision)
                  (field "decided_by_user_id" (num principal.user_id) end))))))
    pure (decision_row decision comment v principal)

  -- The checks of the pending version.
  unfoldable pub decide_on :
      Call
      → String
      → Option String
      → RemediationPlan
      → PlanVersion
      → Principal
      → Exec ApprovalDb ApprovalDecision
  unfolding withdraw settle plan_digest
  decide_on call decision comment plan v principal =
      if leb v.expires_at call.now
      then withdraw VersionState.expired "expired" plan v "approval request expired"
      else if not (str_eq (plan_digest srv plan) v.plan_hash)
      then withdraw VersionState.superseded "invalidated" plan v
          "plan changed after approval initiation"
      else settle call decision comment plan v principal

  unfoldable pub decide :
      Call → ℕ → String → Option String → Principal → Exec ApprovalDb ApprovalDecision
  unfolding decide_on awaits latest is_plan lower is_decision
  decide call plan_id decision comment principal = do
    require (is_decision (lower decision)) (value_error "decision must be approved or rejected")
    found ← gets (λ db. find? (is_plan plan_id) db.plans)
    plan ← some_or found (lookup_error "Plan not found")
    pending ← gets (λ db. latest (awaits plan.id) db.versions)
    v ← some_or pending (value_error "no pending frozen plan version")
    decide_on call (lower decision) comment plan v principal

  unfoldable pub usable : ℕ → RemediationPlan → PlanVersion → Exec ApprovalDb PlanVersion
  unfolding withdraw plan_digest
  usable now plan v =
      if leb v.expires_at now
      then withdraw VersionState.expired "expired" plan v "approval expired"
      else if not (str_eq (plan_digest srv plan) v.plan_hash)
      then withdraw VersionState.superseded "invalidated" plan v "approved plan hash mismatch"
      else pure v

  -- The caller passes the plan that it has loaded.
  unfoldable pub active_approved_version : ℕ → RemediationPlan → Exec ApprovalDb PlanVersion
  unfolding usable granted latest
  active_approved_version now plan = do
    found ← gets (λ db. latest (granted plan.id) db.versions)
    v ← some_or found (value_error "plan has no approved frozen version")
    usable now plan v
