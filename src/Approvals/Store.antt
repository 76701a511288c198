-- ===== src/Approvals/Store.antt =====
-- The plans, their frozen versions and the decisions (backend/models/approval.py and agenticops.py).
use agenticops.Prelude.{
  ℕ, String, Bool, true, false, ◌||◌, Option, none, some, List, [], ◌∷◌, leb, max, ◌==◌,
  if◌then◌else◌,
}
use agenticops.Prelude.Json.{Fields}
use agenticops.Cases.Store.{CaseDb}
use agenticops.Webhooks.Store.{WebhookDb}
use agenticops.Audit.Log.{SecurityAuditEvent}

pub data RemediationPlanStatus : Type 0 where
  draft pending_approval approved executing : RemediationPlanStatus
  succeeded failed rolled_back cancelled : RemediationPlanStatus

pub record RemediationPlan : Type 0 where
  pub id : ℕ
  pub case_id : ℕ
  pub plan_code : String
  pub status : RemediationPlanStatus
  pub execution_mode : String
  pub approval_status : String
  pub risk_level : String
  pub summary : Option String
  pub plan_payload : Fields
  pub rollback_payload : Fields
  pub safety_checks : Fields
  pub approved_at : Option ℕ

-- What `canonical_plan_payload` keeps of a plan.
pub record CanonicalPlan : Type 0 where
  pub plan_id : ℕ
  pub case_id : ℕ
  pub plan_code : String
  pub execution_mode : String
  pub risk_level : String
  pub summary : String
  pub plan_payload : Fields
  pub rollback_payload : Fields
  pub safety_checks : Fields

-- The texts of the state column.
pub data VersionState : Type 0 where
  pending approved rejected superseded expired : VersionState

pub record PlanVersion : Type 0 where
  pub id : ℕ
  pub remediation_plan_id : ℕ
  pub version : ℕ
  pub plan_hash : String
  pub canonical_payload : CanonicalPlan
  pub state : VersionState
  pub initiated_by_user_id : ℕ
  pub initiated_by_session_id : Option String
  pub expires_at : ℕ
  pub decided_at : Option ℕ

pub record ApprovalDecision : Type 0 where
  pub plan_version_id : ℕ
  pub decision : String
  pub comment : String
  pub decided_by_user_id : ℕ
  pub decided_by_session_id : Option String
  pub decided_plan_hash : String

pub record ApprovalDb : Type 0 where
  pub plans : List RemediationPlan
  pub versions : List PlanVersion
  pub decisions : List ApprovalDecision
  pub audit : List SecurityAuditEvent
  pub cases : CaseDb
  pub webhooks : WebhookDb
  pub next_version_id : ℕ

-- What the service reads of the caller.
pub record Principal : Type 0 where
  pub user_id : ℕ
  pub session_id : Option String

unfoldable pub is_plan : ℕ → RemediationPlan → Bool
is_plan n p = p.id == n

unfoldable pub is_version : ℕ → PlanVersion → Bool
is_version n v = v.id == n

unfoldable pub of_plan : ℕ → PlanVersion → Bool
of_plan n v = v.remediation_plan_id == n

unfoldable pub is_pending : VersionState → Bool
is_pending VersionState.pending = true
is_pending _ = false

unfoldable pub is_approved : VersionState → Bool
is_approved VersionState.approved = true
is_approved _ = false

-- `state.in_(["pending", "approved"])`
unfoldable pub is_active : VersionState → Bool
unfolding is_pending is_approved
is_active s = is_pending s || is_approved s

newer : PlanVersion → Option PlanVersion → PlanVersion
newer v none = v
newer v (some w) = if leb w.version v.version then v else w

-- `filter(p).order_by(version.desc()).first()`
unfoldable pub latest : (PlanVersion → Bool) → List PlanVersion → Option PlanVersion
unfolding newer
latest p [] = none
latest p (v ∷ vs) = let rest = latest p vs in if p v then some (newer v rest) else rest

-- `coalesce(max(version), 0)` of a plan's versions
unfoldable pub max_version : ℕ → List PlanVersion → ℕ
unfolding of_plan
max_version n [] = 0
max_version n (v ∷ vs) =
    let rest = max_version n vs in if of_plan n v then max v.version rest else rest
