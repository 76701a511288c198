-- ===== src/Approvals/Binding.antt =====
-- What an approved version vouches for, and what a decision needs.
use agenticops.Prelude.{
  ℕ, ◌<◌, ◌≡◌, ◌↔◌, inl, inr, Bool, true, some, List, [], ◌∷◌, arith, eq_iff, Option-cases,
}
use agenticops.Prelude.Exec.{ok}
use agenticops.Approvals.Store.{
  RemediationPlan, PlanVersion, VersionState, ApprovalDb, of_plan, is_approved, latest,
}
use agenticops.Approvals.Service.{Services, plan_digest}
use agenticops.Approvals.Decide.{granted, withdraw, usable, active_approved_version}

latest-holds :
    (p : PlanVersion → Bool) (vs : List PlanVersion) (v : PlanVersion)
    → latest p vs ≡ some v
    → p v ≡ true
unfolding latest
latest-holds p [] v h = ground arith
latest-holds p (w ∷ ws) v h = ground (arith, latest-holds p ws v)

-- The newest version that is approved, is of the plan, has not expired, and was frozen from just
-- what the plan says now.
pub record IsUsable (srv : Services) (now : ℕ) (plan : RemediationPlan) (db : ApprovalDb)
    (v : PlanVersion) : Type 0 where
  pub newest : latest (granted plan.id) db.versions ≡ some v
  pub same_plan : v.remediation_plan_id ≡ plan.id
  pub is_approved : v.state ≡ VersionState.approved
  pub in_time : now < v.expires_at
  pub unchanged : plan_digest srv plan ≡ v.plan_hash

granted-holds :
    (n : ℕ) (v : PlanVersion)
    → granted n v ≡ true
    → (v.remediation_plan_id ≡ n) × (v.state ≡ VersionState.approved)
unfolding granted of_plan is_approved
granted-holds n v h = ground arith

module _ (srv : Services) (now : ℕ) (plan : RemediationPlan) (db : ApprovalDb)
    (v : PlanVersion) where
  pub IsUsable-of_active :
      (active_approved_version srv now plan db).0 ≡ ok v → IsUsable srv now plan db v
  unfolding active_approved_version usable withdraw
  IsUsable-of_active h = elim (Option-cases (latest (granted plan.id) db.versions)) [
    | inl missing ↦ absurd (ground arith)
    | inr (w, found) ↦
        let same : w ≡ v = ground (arith, found, h) in
        let g = granted-holds plan.id w (latest-holds (granted plan.id) db.versions w found) in
        record {
          newest = ground arith;
          same_plan = ground (arith, g.0);
          is_approved = ground (arith, g.1);
          in_time = ground (arith, h, found);
          unchanged = ground (arith, eq_iff (plan_digest srv plan) v.plan_hash);
        }
  ]

  pub active_of_IsUsable :
      IsUsable srv now plan db v → active_approved_version srv now plan db ≡ (ok v, db)
  unfolding active_approved_version usable
  active_of_IsUsable u =
      let same = (eq_iff (plan_digest srv plan) v.plan_hash).1 u.unchanged in
      ground (arith, u.newest, u.in_time, same)

  -- A version is handed out as approved exactly when it is the newest approved one of the plan,
  -- has not expired, and its hash is that of the plan as it is now.
  pub active_approved_version_iff :
      ((active_approved_version srv now plan db).0 ≡ ok v) ↔ IsUsable srv now plan db v
  active_approved_version_iff = (IsUsable-of_active, λ u. ground (arith, active_of_IsUsable u))
