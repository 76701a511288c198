-- ===== src/Approvals/Single.antt =====
-- Plans with one pending or approved version at most, and lemmas on them.
use agenticops.Prelude.{
  ℕ, ◌≤◌, ◌≡◌, ◌≢◌, refl, inl, inr, Bool, true, false, some, List, [], ◌∷◌, ◌++◌, arith, find?,
  update_first, update_all, Option-cases, Bool-cases, ◌==◌, ==_iff, count, count_snoc,
  count-update_found, count-update_none, count-update_other, IsKeyedBelow, keyed_snoc,
  keyed-update_first, keyed-update_all,
}
use agenticops.Approvals.Store.{
  RemediationPlan, PlanVersion, ApprovalDb, of_plan, is_version, is_pending, is_approved, is_active,
  latest,
}
use agenticops.Approvals.Service.{Services, replaced, supersede, frozen}

-- Every version is found under its identifier, and no plan has two that are pending or approved.
pub record IsSingle (db : ApprovalDb) : Type 0 where
  pub keyed : IsKeyedBelow (λ v. v.id) db.next_version_id db.versions
  pub single : (n : ℕ) → count (replaced n) db.versions ≤ 1

superseded_out :
    (n : ℕ) (plan : RemediationPlan) (v : PlanVersion) → replaced n (supersede plan v) ≡ false
unfolding replaced supersede of_plan is_active is_pending is_approved
superseded_out n plan v = ground arith

replaced_own : (n m : ℕ) (v : PlanVersion) → n ≢ m → replaced m v ≡ true → replaced n v ≡ false
unfolding replaced of_plan
replaced_own n m v ne h = ground arith

superseded_id : (plan : RemediationPlan) (v : PlanVersion) → (supersede plan v).id ≡ v.id
unfolding supersede
superseded_id plan v = refl

new_other :
    (n : ℕ) (plan : RemediationPlan) (v : PlanVersion)
    → v.remediation_plan_id ≡ plan.id
    → n ≢ plan.id
    → replaced n v ≡ false
unfolding replaced of_plan
new_other n plan v own ne = ground arith

frozen_count :
    (plan : RemediationPlan) (v : PlanVersion) (vs : List PlanVersion) (n : ℕ)
    → v.remediation_plan_id ≡ plan.id
    → count (replaced n) vs ≤ 1
    → count (replaced n) (update_all (replaced plan.id) (supersede plan) vs ++ v ∷ []) ≤ 1
frozen_count plan v vs n own h =
    let rest = update_all (replaced plan.id) (supersede plan) vs in
    elim (Bool-cases (n == plan.id)) [
      | inl same ↦
          let e = (==_iff n plan.id).0 same in
          let none_left : count (replaced n) rest ≡ 0 = rw e (
            count-update_none (replaced plan.id) (supersede plan) vs
              (superseded_out plan.id plan)) in
          ground (arith, count_snoc (replaced n) rest v, none_left)
      | inr other ↦
          let ne : n ≢ plan.id = λ e. ground (arith, e) in
          let left : count (replaced n) rest ≡ count (replaced n) vs =
            count-update_other (replaced n) (replaced plan.id) (supersede plan) vs
              (λ x r. (replaced_own n plan.id x ne r, superseded_out n plan x)) in
          ground (arith, count_snoc (replaced n) rest v, left, new_other n plan v own ne)
    ]

-- Freezing leaves one active version of its plan, and those of other plans as they were.
pub frozen-IsSingle :
    (srv : Services) (plan : RemediationPlan) (v : PlanVersion) (db : ApprovalDb)
    → v.remediation_plan_id ≡ plan.id
    → v.id ≡ db.next_version_id
    → IsSingle db
    → IsSingle (frozen srv plan v db)
unfolding frozen
frozen-IsSingle srv plan v db own fresh s = record {
  keyed =
      keyed_snoc (λ w. w.id) db.next_version_id _ v
        (keyed-update_all (λ w. w.id) db.next_version_id (replaced plan.id) (supersede plan)
          db.versions (superseded_id plan) s.keyed)
        fresh;
  single = λ n. frozen_count plan v db.versions n own (s.single n);
}

pub latest-listed :
    (n : ℕ) (p : PlanVersion → Bool) (vs : List PlanVersion) (v : PlanVersion)
    → IsKeyedBelow (λ w. w.id) n vs
    → latest p vs ≡ some v
    → (find? (is_version v.id) vs ≡ some v) × (p v ≡ true)
unfolding latest find? is_version IsKeyedBelow
latest-listed n p [] v k h = absurd (ground arith)
latest-listed n p (w ∷ ws) v k h = elim (Option-cases (latest p ws)) [
  | inl empty ↦ (ground arith, ground arith)
  | inr (u, found) ↦
      let ih = latest-listed n p ws u k.2 found in (ground (arith, ih.0, k.1), ground (arith, ih.1))
]

changed_counts :
    (n : ℕ) (f : PlanVersion → PlanVersion) (v : PlanVersion)
    → (f v).remediation_plan_id ≡ v.remediation_plan_id
    → is_active v.state ≡ true
    → replaced n (f v) ≡ true
    → replaced n v ≡ true
unfolding replaced of_plan
changed_counts n f v own active h = ground arith

-- A change of a version that was active, and keeps its identifier and plan, adds no active version.
pub changed-IsSingle :
    (db db' : ApprovalDb) (p : PlanVersion → Bool) (f : PlanVersion → PlanVersion) (v : PlanVersion)
    → ((w : PlanVersion) → ((f w).id ≡ w.id) × ((f w).remediation_plan_id ≡ w.remediation_plan_id))
    → latest p db.versions ≡ some v
    → (p v ≡ true → is_active v.state ≡ true)
    → db'.versions ≡ update_first (is_version v.id) f db.versions
    → db'.next_version_id ≡ db.next_version_id
    → IsSingle db
    → IsSingle db'
changed-IsSingle db db' p f v keeps h a e e' s =
    let listed = latest-listed db.next_version_id p db.versions v s.keyed h in
    record {
      keyed = rw e (
          rw e' (
            keyed-update_first (λ w. w.id) db.next_version_id (is_version v.id) f db.versions
              (λ w. (keeps w).0) s.keyed));
      single = λ n.
          let few =
            count-update_found (replaced n) (is_version v.id) f db.versions v listed.0
              (changed_counts n f v (keeps v).1 (a listed.1)) in
          rw e (ground (arith, few, s.single n));
    }
