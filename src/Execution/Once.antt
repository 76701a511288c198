-- ===== src/Execution/Once.antt =====
-- Proofs about the jobs of an approved version in `execute_plan`.
use agenticops.Prelude.{
  ℕ, String, ◌≡◌, refl, ◌∙◌, sym, ap, subst, Bool, none, List, [], ◌∷◌, ◌++◌, arith, find?,
  update_first, find?-append_none, Bool-cases, inl, inr,
}
use agenticops.Prelude.Exec.{Result, ok, err}
use agenticops.Approvals.Store.{RemediationPlan, PlanVersion, Principal}
use agenticops.Execution.Store.{ExecutionJob, ExecutionDb, ExecutionResponse, for_version, is_job}
use agenticops.Execution.Actions.{World}
use agenticops.Execution.Accept.{
  Accepted, previewed, answered, started, start, accept, audit_execution, announce_execution,
}
use agenticops.Execution.Plan.{
  recheck, settle, work_on, work, fail_job, end_job, ended, complete_record, finish, run_plan,
  rolled_back, proceed, answer, execute_plan,
}
use agenticops.Execution.Boundary.{run_plan-ends}
use agenticops.Execution.Quiet.{Ok, accept_holds}
use agenticops.Execution.Safety.{IsChecked, recheck-Ok, none_added}

unfoldable pub IsOnce : List ExecutionJob → Type 0
IsOnce [] = Unit
IsOnce (j ∷ js) = (find? (for_version j.plan_version_id) js ≡ none) × IsOnce js

IsOnce-snoc :
    (js : List ExecutionJob) (j : ExecutionJob)
    → find? (for_version j.plan_version_id) js ≡ none
    → IsOnce js
    → IsOnce (js ++ j ∷ [])
unfolding IsOnce find? for_version
IsOnce-snoc [] j h o = (refl, tt)
IsOnce-snoc (k ∷ ks) j h o = (
  find?-append_none (for_version k.plan_version_id) ks j (ground (arith, h)) ∙ o.0,
  IsOnce-snoc ks j (ground (arith, h)) o.1,
)

none-update_first :
    (n id : ℕ) (f : ExecutionJob → ExecutionJob) (js : List ExecutionJob)
    → ((j : ExecutionJob) → (f j).plan_version_id ≡ j.plan_version_id)
    → find? (for_version n) js ≡ none
    → find? (for_version n) (update_first (is_job id) f js) ≡ none
unfolding find? update_first for_version
none-update_first n id f [] k h = refl
none-update_first n id f (j ∷ js) k h = ground (arith, k j, none-update_first n id f js k)

IsOnce-update_first :
    (id : ℕ) (f : ExecutionJob → ExecutionJob) (js : List ExecutionJob)
    → ((j : ExecutionJob) → (f j).plan_version_id ≡ j.plan_version_id)
    → IsOnce js
    → IsOnce (update_first (is_job id) f js)
unfolding IsOnce update_first
IsOnce-update_first id f [] k o = tt
IsOnce-update_first id f (j ∷ js) k o = elim (Bool-cases (is_job id j)) [
  | inl hit ↦ rw hit (ap (λ n. find? (for_version n) js) (k j) ∙ o.0, o.1)
  | inr miss ↦
      rw miss (none-update_first j.plan_version_id id f js k o.0, IsOnce-update_first id f js k o.1)
]

module _ (w : World) where
  start-IsOnce :
      (plan : RemediationPlan) (version : PlanVersion) (principal : Principal) (key h : String)
      (db : ExecutionDb)
      → find? (for_version version.id) db.jobs ≡ none
      → IsOnce db.jobs
      → IsOnce (start w plan version principal key h db).1.jobs
  unfolding start audit_execution announce_execution
  start-IsOnce plan version principal key h db free o = IsOnce-snoc db.jobs _ free o

  accept-IsOnce :
      (plan_id : ℕ) (principal : Principal) (username key : String) (dry_run : Bool)
      (db : ExecutionDb)
      → IsOnce db.jobs
      → IsOnce (accept w plan_id principal username key dry_run db).1.jobs
  accept-IsOnce plan_id principal username key dry_run db o =
      accept_holds w (λ d. IsOnce d.jobs)
        (record { settings = λ d s i. i; approvals = λ d a i. i; start = start-IsOnce }) plan_id
        principal username key dry_run db o

  settle-IsOnce :
      {A : Type 0} (committed : ExecutionDb) (r : Result A × ExecutionDb)
      → IsOnce committed.jobs
      → IsOnce r.1.jobs
      → IsOnce (settle w committed r).1.jobs
  unfolding settle rolled_back
  settle-IsOnce committed (ok a, db) c o = o
  settle-IsOnce committed (err e, db) c o = c

  work_on-IsOnce :
      (job : ExecutionJob) (principal : Principal) (username : String) (committed : ExecutionDb)
      (r : Result (RemediationPlan × PlanVersion) × ExecutionDb)
      → Ok (λ t d. d ≡ committed) r
      → IsOnce committed.jobs
      → IsOnce (work_on w job principal username committed r).1.jobs
  unfolding work_on fail_job finish end_job ended complete_record audit_execution announce_execution
  work_on-IsOnce job principal username committed (ok (plan, version), db) same o =
      settle-IsOnce committed (run_plan w job principal username (plan, version) db) o (
        run_plan-ends (λ e. Unit) db w job plan version username (λ e g a. tt) (λ d. IsOnce d.jobs)
          principal db
          (λ d f. subst IsOnce (sym f.jobs) (subst (λ d'. IsOnce d'.jobs) (sym same) o))
          (λ p e summaries d f.
            IsOnce-update_first job.id _ d.jobs (λ j. refl)
              (subst IsOnce (sym f.jobs) (subst (λ d'. IsOnce d'.jobs) (sym same) o)))
          (none_added w (λ e. Unit) db))
  work_on-IsOnce job principal username committed (err e, db) same o =
      IsOnce-update_first job.id _ committed.jobs (λ j. refl) o

  recheck_same :
      (job : ExecutionJob) (db : ExecutionDb)
      (r : Result (RemediationPlan × PlanVersion) × ExecutionDb)
      → Ok (λ t d. IsChecked w job db t × (d ≡ db)) r
      → Ok (λ t d. d ≡ db) r
  recheck_same job db (ok t, d) o = o.1
  recheck_same job db (err e, d) o = tt

  work-IsOnce :
      (job : ExecutionJob) (principal : Principal) (username : String) (committed : ExecutionDb)
      → IsOnce committed.jobs
      → IsOnce (work w job principal username committed).1.jobs
  unfolding work
  work-IsOnce job principal username committed o =
      work_on-IsOnce job principal username committed (recheck w job committed)
        (recheck_same job committed (recheck w job committed) (recheck-Ok w job committed)) o

  answer-IsOnce :
      {A : Type 0} (f : ExecutionResponse → A) (r : Result ExecutionResponse × ExecutionDb)
      → IsOnce r.1.jobs
      → IsOnce (answer w f r).1.jobs
  unfolding answer
  answer-IsOnce f (ok a, db) o = o
  answer-IsOnce f (err e, db) o = o

  proceed-IsOnce :
      (others : ExecutionDb → ExecutionDb) (principal : Principal) (username : String)
      (before : ExecutionDb) (r : Result Accepted × ExecutionDb)
      → ((db : ExecutionDb) → IsOnce db.jobs → IsOnce (others db).jobs)
      → IsOnce before.jobs
      → IsOnce r.1.jobs
      → IsOnce (proceed w others principal username before r).1.jobs
  unfolding proceed rolled_back
  proceed-IsOnce others principal username before (err e, db) k b o = b
  proceed-IsOnce others principal username before (ok (previewed p), db) k b o = b
  proceed-IsOnce others principal username before (ok (answered r), db) k b o = b
  proceed-IsOnce others principal username before (ok (started job), db) k b o =
      answer-IsOnce _ (work w job principal username (others db))
        (work-IsOnce job principal username (others db) (k db o))

  -- If no approved version has two jobs, and what other transactions do keeps that so, then no
  -- version has two after a call of execute_plan, whatever its outcome.
  pub execute_plan-IsOnce :
      (others : ExecutionDb → ExecutionDb) (plan_id : ℕ) (principal : Principal)
      (username key : String) (dry_run : Bool) (before : ExecutionDb)
      → ((db : ExecutionDb) → IsOnce db.jobs → IsOnce (others db).jobs)
      → IsOnce before.jobs
      → IsOnce (execute_plan w others plan_id principal username key dry_run before).1.jobs
  unfolding execute_plan
  execute_plan-IsOnce others plan_id principal username key dry_run before k o =
      proceed-IsOnce others principal username before
        (accept w plan_id principal username key dry_run before) k o
        (accept-IsOnce plan_id principal username key dry_run before o)
