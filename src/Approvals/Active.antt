-- ===== src/Approvals/Active.antt =====
-- Proofs about the active versions of a plan, over the calls of the approval service.
use agenticops.Prelude.{
  ℕ, String, ◌≡◌, refl, inl, inr, Bool, true, ◌&&◌, Option, some, arith, leb, str_eq, lower, find?,
  Option-cases, Bool-cases,
}
use agenticops.Approvals.Store.{
  RemediationPlan, PlanVersion, VersionState, ApprovalDb, Principal, is_plan, is_active, latest,
}
use agenticops.Approvals.Service.{
  Services, Call, plan_digest, frozen, may_freeze, mutations_verified, new_version, submit,
  move_case, audit_append, announce, initiate,
}
use agenticops.Approvals.Decide.{
  granted, awaits, withdrawn, withdraw, decided, decide, decide_on, settle, return_case,
  is_decision,
}
use agenticops.Approvals.Single.{IsSingle, frozen-IsSingle, changed-IsSingle}

carried :
    (db db' : ApprovalDb)
    → db'.versions ≡ db.versions
    → db'.next_version_id ≡ db.next_version_id
    → IsSingle db
    → IsSingle db'
carried db db' e e' s = record { keyed = rw e (rw e' s.keyed); single = λ n. rw e (s.single n) }

module _ (srv : Services) (call : Call) where
  submit_frame :
      (plan : RemediationPlan) (v : PlanVersion) (principal : Principal) (db : ApprovalDb)
      → ((submit srv call plan v principal db).1.versions ≡ (frozen srv plan v db).versions)
        × ((submit srv call plan v principal db).1.next_version_id
            ≡ (frozen srv plan v db).next_version_id)
  unfolding submit move_case audit_append announce
  submit_frame plan v principal db = ground arith

  new_version_keys :
      (plan : RemediationPlan) (principal : Principal) (db : ApprovalDb)
      → ((new_version srv call plan principal db).id ≡ db.next_version_id)
        × ((new_version srv call plan principal db).remediation_plan_id ≡ plan.id)
  unfolding new_version
  new_version_keys plan principal db = (refl, refl)

  -- If versions have identifiers of their own and no plan has two that are pending or approved,
  -- then so it is after a call of initiate, whether it succeeds or not.
  pub initiate-IsSingle :
      (plan_id : ℕ) (principal : Principal) (db : ApprovalDb)
      → IsSingle db
      → IsSingle (initiate srv call plan_id principal db).1
  unfolding initiate
  initiate-IsSingle plan_id principal db s =
      elim (Option-cases (find? (is_plan plan_id) db.plans)) [
        | inl missing ↦ carried db _ (ground arith) (ground arith) s
        | inr (plan, found) ↦
            let v = new_version srv call plan principal db in
            elim (Bool-cases (may_freeze plan.status && mutations_verified srv plan)) [
              | inl free ↦
                  let frame = submit_frame plan v principal db in
                  carried (frozen srv plan v db) _ (ground (arith, frame.0))
                    (ground (arith, frame.1))
                    (frozen-IsSingle srv plan v db (new_version_keys plan principal db).1
                      (new_version_keys plan principal db).0 s)
              | inr busy ↦ carried db _ (ground arith) (ground arith) s
            ]
      ]

  awaits_active : (n : ℕ) (v : PlanVersion) → awaits n v ≡ true → is_active v.state ≡ true
  unfolding awaits is_active
  awaits_active n v h = ground arith

  granted_active : (n : ℕ) (v : PlanVersion) → granted n v ≡ true → is_active v.state ≡ true
  unfolding granted is_active
  granted_active n v h = ground arith

  withdrawn-IsSingle :
      (state : VersionState) (note : String) (plan : RemediationPlan) (v : PlanVersion)
      (p : PlanVersion → Bool) (db : ApprovalDb)
      → latest p db.versions ≡ some v
      → (p v ≡ true → is_active v.state ≡ true)
      → IsSingle db
      → IsSingle (withdrawn state note plan v db)
  unfolding withdrawn
  withdrawn-IsSingle state note plan v p db h a s =
      changed-IsSingle db _ p (λ w. record w { state = state }) v (λ w. (refl, refl)) h a refl refl
        s

  pub settle_frame :
      (decision : String) (comment : Option String) (plan : RemediationPlan) (v : PlanVersion)
      (principal : Principal) (db : ApprovalDb)
      → ((settle srv call decision comment plan v principal db).1.versions
          ≡ (decided call decision comment plan v principal db).versions)
        × ((settle srv call decision comment plan v principal db).1.next_version_id
            ≡ (decided call decision comment plan v principal db).next_version_id)
  unfolding settle return_case move_case audit_append announce
  settle_frame decision comment plan v principal db = ground arith

  pub decided-IsSingle :
      (decision : String) (comment : Option String) (plan : RemediationPlan) (v : PlanVersion)
      (principal : Principal) (n : ℕ) (db : ApprovalDb)
      → latest (awaits n) db.versions ≡ some v
      → IsSingle db
      → IsSingle (decided call decision comment plan v principal db)
  unfolding decided
  decided-IsSingle decision comment plan v principal n db h s =
      changed-IsSingle db _ (awaits n) _ v (λ w. (refl, refl)) h (awaits_active n v) refl refl s

  decide_on-IsSingle :
      (decision : String) (comment : Option String) (plan : RemediationPlan) (v : PlanVersion)
      (principal : Principal) (n : ℕ) (db : ApprovalDb)
      → latest (awaits n) db.versions ≡ some v
      → IsSingle db
      → IsSingle (decide_on srv call decision comment plan v principal db).1
  unfolding decide_on withdraw
  decide_on-IsSingle decision comment plan v principal n db h s =
      let frame = settle_frame decision comment plan v principal db in
      elim (Bool-cases (leb v.expires_at call.now)) [
        | inl late ↦ rw late (
            withdrawn-IsSingle VersionState.expired "expired" plan v (awaits n) db h
              (awaits_active n v) s)
        | inr timely ↦ elim (Bool-cases (str_eq (plan_digest srv plan) v.plan_hash)) [
          | inl same ↦ rw timely (
              rw same (
                carried (decided call decision comment plan v principal db) _ frame.0 frame.1
                  (decided-IsSingle decision comment plan v principal n db h s)))
          | inr changed ↦ rw timely (
              rw changed (
                withdrawn-IsSingle VersionState.superseded "invalidated" plan v (awaits n) db h
                  (awaits_active n v) s))
        ]
      ]

  -- If versions have identifiers of their own and no plan has two that are pending or approved,
  -- then so it is after a call of decide, whatever its outcome.
  pub decide-IsSingle :
      (plan_id : ℕ) (decision : String) (comment : Option String) (principal : Principal)
      (db : ApprovalDb)
      → IsSingle db
      → IsSingle (decide srv call plan_id decision comment principal db).1
  unfolding decide
  decide-IsSingle plan_id decision comment principal db s =
      elim (Bool-cases (is_decision (lower decision))) [
        | inr odd ↦ rw odd s
        | inl known ↦ elim (Option-cases (find? (is_plan plan_id) db.plans)) [
          | inl missing ↦ rw known (rw missing s)
          | inr (plan, found) ↦ elim (Option-cases (latest (awaits plan.id) db.versions)) [
            | inl empty ↦ rw known (rw found (rw empty s))
            | inr (v, pending) ↦ rw known (
                rw found (
                  rw pending (
                    decide_on-IsSingle (lower decision) comment plan v principal plan.id db pending
                      s)))
          ]
        ]
      ]
