-- ===== src/Execution/Repeat.antt =====
-- Proofs about `execute_plan` on a version that has a job.
use agenticops.Prelude.{
  ℕ, String, ◌≡◌, refl, Bool, false, not, Option, none, some, arith, find?, str_eq, if-both,
  Bool-cases, Option-cases, inl, inr, if◌then◌else◌,
}
use agenticops.Prelude.Exec.{Exec, Result}
use agenticops.Cases.Store.{find_case}
use agenticops.Approvals.Store.{RemediationPlan, PlanVersion, Principal, is_plan}
use agenticops.Approvals.Binding.{IsUsable, active_of_IsUsable}
use agenticops.Execution.Store.{
  ExecutionJob, IdempotencyRecord, ExecutionDb, ExecutionResponse, for_version, has_idempotency,
}
use agenticops.Execution.Actions.{World}
use agenticops.Execution.Accept.{
  Accepted, on_approvals, preview_actions, dry_run_preview, replay, prior_answer, start_unless,
  accept_version, accept, recommended, has_actions,
}
use agenticops.Execution.Plan.{execute_plan}
use agenticops.Execution.Quiet.{Ok, Ok-continue, is_started, accept_effects}
use agenticops.Execution.Safety.{proceed_unstarted}

abbrev Unstarted : Result Accepted × ExecutionDb → Type 0
Unstarted = Ok (λ a d. is_started a ≡ false)

module _ (w : World) where
  replay-Unstarted :
      (r : IdempotencyRecord) (h : String) (db : ExecutionDb) → Unstarted (replay w r h db)
  unfolding replay is_started
  replay-Unstarted r h db =
      if-both {A = Exec ExecutionDb Accepted} (λ m. Unstarted (m db))
        (not (str_eq r.request_hash h)) tt
        (if-both {A = Exec ExecutionDb Accepted} (λ m. Unstarted (m db))
          (str_eq r.status "completed") refl tt)

  prior-Unstarted :
      (o : Option ExecutionResponse) (db : ExecutionDb) → Unstarted (prior_answer w o db)
  unfolding prior_answer is_started
  prior-Unstarted (some r) db = refl
  prior-Unstarted none db = tt

  start-Unstarted :
      (o : Option IdempotencyRecord) (prior : Option ExecutionJob) (job : ExecutionJob)
      (plan : RemediationPlan) (version : PlanVersion) (principal : Principal) (key h : String)
      (db : ExecutionDb)
      → prior ≡ some job
      → Unstarted (start_unless w o prior plan version principal key h db)
  unfolding start_unless
  start-Unstarted (some r) prior job plan version principal key h db e = replay-Unstarted r h db
  start-Unstarted none (some j) job plan version principal key h db e = prior-Unstarted j.result db
  start-Unstarted none none job plan version principal key h db e = absurd (ground (arith, e))

  repeated :
      (plan : RemediationPlan) (version : PlanVersion) (job : ExecutionJob) (principal : Principal)
      (username key : String) (dry_run : Bool) (db : ExecutionDb)
      → find? (for_version version.id) db.jobs ≡ some job
      → Unstarted (
          (if dry_run
              then dry_run_preview w plan version
                  (recommended version.canonical_payload.plan_payload)
                  username
              else accept_version w plan version principal key)
            db)
  unfolding dry_run_preview accept_version is_started
  repeated plan version job principal username key dry_run db h =
      if-both {A = Exec ExecutionDb Accepted} (λ m. Unstarted (m db)) dry_run
        (Ok-continue _
          (preview_actions w plan username 1 (recommended version.canonical_payload.plan_payload)
            db)
          _ (λ entries d. refl))
        (start-Unstarted (find? (has_idempotency "plan.execute" key) db.records)
          (find? (for_version version.id) db.jobs) job plan version principal key
          (w.request_digest plan.id version.id version.plan_hash) db h)

  accept-Unstarted :
      (plan_id : ℕ) (plan : RemediationPlan) (version : PlanVersion) (job : ExecutionJob)
      (principal : Principal) (username key : String) (dry_run : Bool) (db : ExecutionDb)
      → find? (is_plan plan_id) db.approvals.plans ≡ some plan
      → IsUsable w.srv w.now plan db.approvals version
      → find? (for_version version.id) db.jobs ≡ some job
      → Unstarted (accept w plan_id principal username key dry_run db)
  unfolding accept on_approvals
  accept-Unstarted plan_id plan version job principal username key dry_run db found usable has_job =
      elim (Option-cases (find_case plan.case_id db.approvals.cases)) [
        | inl missing ↦ rw (found, missing) tt
        | inr (c, hit) ↦
            elim (Bool-cases (has_actions (recommended version.canonical_payload.plan_payload))) [
              | inr empty ↦
                  rw
                    (
                      found,
                      hit,
                      active_of_IsUsable w.srv w.now plan db.approvals version usable,
                      empty,
                    )
                    tt
              | inl some_ ↦
                  rw
                    (
                      found,
                      hit,
                      active_of_IsUsable w.srv w.now plan db.approvals version usable,
                      some_,
                    )
                    (repeated plan version job principal username key dry_run db has_job)
            ]
      ]

  -- If the usable approved version of a plan has a job already, finished or not, then a call of
  -- execute_plan on the plan, with any key, changes nothing and calls no executor.
  pub executed_version_unchanged :
      (others : ExecutionDb → ExecutionDb) (plan_id : ℕ) (plan : RemediationPlan)
      (version : PlanVersion) (job : ExecutionJob) (principal : Principal) (username key : String)
      (dry_run : Bool) (before : ExecutionDb)
      → find? (is_plan plan_id) before.approvals.plans ≡ some plan
      → IsUsable w.srv w.now plan before.approvals version
      → find? (for_version version.id) before.jobs ≡ some job
      → (execute_plan w others plan_id principal username key dry_run before).1 ≡ before
  unfolding execute_plan
  executed_version_unchanged others plan_id plan version job principal username key dry_run before
        found usable has_job =
      proceed_unstarted w others principal username before
        (accept w plan_id principal username key dry_run before)
        (accept_effects w plan_id principal username key dry_run before)
        (accept-Unstarted plan_id plan version job principal username key dry_run before found
          usable has_job)
