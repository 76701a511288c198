-- ===== src/Approvals/Grant.antt =====
-- Proofs about a version that was approved.
use agenticops.Prelude.{
  ℕ, ◌≤◌, ◌<◌, String, ◌≡◌, refl, Bool, true, Option, none, some, List, [], ◌∷◌, arith, eq_iff,
  lower, find?, Bool-cases, inl, inr, ==_refl, count, where_all, find?-update_self,
}
use agenticops.Prelude.Exec.{ok}
use agenticops.Approvals.Store.{
  RemediationPlan, PlanVersion, VersionState, ApprovalDb, Principal, of_plan, is_plan, is_version,
  is_approved, is_active, latest,
}
use agenticops.Approvals.Service.{Services, Call, plan_digest, replaced}
use agenticops.Approvals.Decide.{
  granted, awaits, decided, active_approved_version, usable, decide, decide_on, settle, is_decision,
}
use agenticops.Approvals.Single.{IsSingle, latest-listed}
use agenticops.Approvals.Active.{settle_frame, decided-IsSingle}

granted-replaced : (n : ℕ) (v : PlanVersion) → granted n v ≡ true → replaced n v ≡ true
unfolding granted replaced is_active
granted-replaced n v h = ground arith

latest_of_none :
    (n : ℕ) (vs : List PlanVersion) → count (replaced n) vs ≤ 0 → latest (granted n) vs ≡ none
unfolding latest count where_all
latest_of_none n [] h = refl
latest_of_none n (v ∷ vs) h = ground (arith, granted-replaced n v, latest_of_none n vs)

counted :
    (p q : PlanVersion → Bool) (vs : List PlanVersion) (v : PlanVersion)
    → find? q vs ≡ some v
    → p v ≡ true
    → 1 ≤ count p vs
unfolding count where_all find?
counted p q [] v h k = ground arith
counted p q (w ∷ ws) v h k = ground (arith, counted p q ws v)

-- The one active version of a plan, if it is approved, is the newest approved one.
latest_of_single :
    (n : ℕ) (q : PlanVersion → Bool) (vs : List PlanVersion) (v : PlanVersion)
    → count (replaced n) vs ≤ 1
    → find? q vs ≡ some v
    → granted n v ≡ true
    → latest (granted n) vs ≡ some v
unfolding latest count where_all find?
latest_of_single n q [] v c h g = ground arith
latest_of_single n q (w ∷ ws) v c h g = elim (Bool-cases (q w)) [
  | inl hit ↦ ground (arith, granted-replaced n w, latest_of_none n ws)
  | inr miss ↦ ground (
    arith,
    granted-replaced n v,
    granted-replaced n w,
    counted (replaced n) q ws v,
    latest_of_single n q ws v,
  )
]

-- The version after it was approved.
abbrev pub approved_row : ℕ → PlanVersion → PlanVersion
approved_row now v = record v { state = VersionState.approved; decided_at = some now }

granted_after :
    (n now : ℕ) (v : PlanVersion) → awaits n v ≡ true → granted n (approved_row now v) ≡ true
unfolding awaits granted of_plan is_approved
granted_after n now v h = ground arith

module _ (srv : Services) (call : Call) (comment : Option String) (principal : Principal) where
  decided_latest :
      (plan : RemediationPlan) (v : PlanVersion) (db : ApprovalDb)
      → IsSingle db
      → latest (awaits plan.id) db.versions ≡ some v
      → latest (granted plan.id) (decided call "approved" comment plan v principal db).versions
        ≡ some (approved_row call.now v)
  unfolding decided is_version
  decided_latest plan v db s h =
      let listed = latest-listed db.next_version_id (awaits plan.id) db.versions v s.keyed h in
      let s' = decided-IsSingle srv call "approved" comment plan v principal plan.id db h s in
      latest_of_single plan.id (is_version v.id) _ (approved_row call.now v) (s'.single plan.id)
        (find?-update_self (is_version v.id) _ db.versions listed.0 (==_refl v.id))
        (granted_after plan.id call.now v listed.1)

  decide-settles :
      (plan : RemediationPlan) (v : PlanVersion) (db : ApprovalDb)
      → find? (is_plan plan.id) db.plans ≡ some plan
      → latest (awaits plan.id) db.versions ≡ some v
      → call.now < v.expires_at
      → plan_digest srv plan ≡ v.plan_hash
      → decide srv call plan.id "approved" comment principal db
        ≡ settle srv call "approved" comment plan v principal db
  unfolding decide decide_on lower is_decision
  decide-settles plan v db found pending early same =
      ground (arith, (eq_iff (plan_digest srv plan) v.plan_hash).1 same)

  -- In tables where no plan has two active versions, when the pending version of a plan is
  -- approved before it expires and the plan still has the hash that was frozen, then before it
  -- expires the service hands out just this version as approved, for the plan with that
  -- identifier and hash.
  pub decide_active :
      (plan later_plan : RemediationPlan) (v : PlanVersion) (later : ℕ) (db : ApprovalDb)
      → IsSingle db
      → find? (is_plan plan.id) db.plans ≡ some plan
      → latest (awaits plan.id) db.versions ≡ some v
      → call.now < v.expires_at
      → plan_digest srv plan ≡ v.plan_hash
      → later < v.expires_at
      → later_plan.id ≡ plan.id
      → plan_digest srv later_plan ≡ v.plan_hash
      → (active_approved_version srv later later_plan
          (decide srv call plan.id "approved" comment principal db).1).0
        ≡ ok (approved_row call.now v)
  unfolding active_approved_version usable
  decide_active plan later_plan v later db s found pending early same later_early same_id
        later_same =
      let settled = settle srv call "approved" comment plan v principal db in
      let newest : latest (granted later_plan.id) settled.1.versions
          ≡ some (approved_row call.now v) =
        rw same_id (
          rw (settle_frame srv call "approved" comment plan v principal db).0
            (decided_latest plan v db s pending)) in
      rw (decide-settles plan v db found pending early same)
        (ground (arith, newest, (eq_iff (plan_digest srv later_plan) v.plan_hash).1 later_same))
