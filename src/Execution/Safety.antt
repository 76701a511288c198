-- ===== src/Execution/Safety.antt =====
-- Proofs about the calls of executors that `execute_plan` makes, and about dry runs.
use mathlib.Core.List.{append-nil}
use agenticops.Prelude.{
  subst, ℕ, String, ◌≡◌, refl, ◌∙◌, sym, ap, Bool, true, false, [], ◌++◌, arith, str_eq, find?,
  some, Bool-cases, Option-cases, inl, inr, ◌⊎◌,
}
use agenticops.Prelude.Exec.{Error, Result, ok, err}
use agenticops.Cases.Store.{find_case}
use agenticops.Approvals.Store.{RemediationPlan, PlanVersion, Principal, is_plan}
use agenticops.Approvals.Binding.{IsUsable, IsUsable-of_active, active_of_IsUsable}
use agenticops.Approvals.Decide.{active_approved_version}
use agenticops.Execution.Store.{ExecutionJob, Effect, ExecutionDb, ExecutionResponse}
use agenticops.Execution.Actions.{World}
use agenticops.Execution.Accept.{Accepted, previewed, answered, started, on_approvals, accept}
use agenticops.Execution.Plan.{
  recheck, run_plan, settle, work_on, work, fail_job, end_job, complete_record, rolled_back,
  proceed, answer, execute_plan,
}
use agenticops.Execution.Frame.{IsGuarded, Calls, Frame}
use agenticops.Execution.Quiet.{Ok, is_started, accept_effects, dry_run_starts_none}
use agenticops.Execution.Starts.{StartsFor, accept-StartsFor}
use agenticops.Execution.Boundary.{IsAsked, run_plan-Calls}

Result-cases : {A : Type 0} (r : Result A) → ((a : A) × (r ≡ ok a)) ⊎ ((e : Error) × (r ≡ err e))
Result-cases (ok a) = inl (a, refl)
Result-cases (err e) = inr (e, refl)

-- In the store that the worker reads: the plan with this number, its version that is approved,
-- unexpired and unchanged, the version's action that the call is for, and the guard's allowance.
pub record IsApproved (w : World) (plan_id : ℕ) (username : String) (db : ExecutionDb) (e : Effect)
    : Type 0 where
  pub plan : RemediationPlan
  pub version : PlanVersion
  pub found : find? (is_plan plan_id) db.approvals.plans ≡ some plan
  pub usable : IsUsable w.srv w.worker_now plan db.approvals version
  pub asked : IsAsked w plan version username e.request
  pub guarded : IsGuarded w plan e

-- What a worker's check of a job gives: the job's plan and its usable version, of the store as is.
abbrev pub IsChecked : World → ExecutionJob → ExecutionDb → RemediationPlan × PlanVersion → Type 0
IsChecked w job db t =
    (find? (is_plan job.remediation_plan_id) db.approvals.plans ≡ some t.0)
    × IsUsable w.srv w.worker_now t.0 db.approvals t.1

module _ (w : World) where
  pub recheck-Ok :
      (job : ExecutionJob) (db : ExecutionDb)
      → Ok (λ t d. IsChecked w job db t × (d ≡ db)) (recheck w job db)
  unfolding recheck on_approvals
  recheck-Ok job db =
      elim (Option-cases (find? (is_plan job.remediation_plan_id) db.approvals.plans)) [
        | inl missing ↦ rw missing tt
        | inr (plan, found) ↦ elim (Option-cases (find_case plan.case_id db.approvals.cases)) [
          | inl missing ↦ rw (found, missing) tt
          | inr (c, hit) ↦
              elim (Result-cases (active_approved_version w.srv w.worker_now plan db.approvals).0) [
                | inr (e, refused) ↦ rw (found, hit, refused) tt
                | inl (v, active) ↦
                    let u = IsUsable-of_active w.srv w.worker_now plan db.approvals v active in
                    elim (Bool-cases (str_eq v.plan_hash job.plan_hash)) [
                      | inl same ↦
                          rw
                            (
                              found,
                              hit,
                              active_of_IsUsable w.srv w.worker_now plan db.approvals v u,
                              same,
                            )
                            ((refl, u), refl)
                      | inr changed ↦
                          rw
                            (
                              found,
                              hit,
                              active_of_IsUsable w.srv w.worker_now plan db.approvals v u,
                              changed,
                            )
                            tt
                    ]
              ]
        ]
      ]

  settle-Calls :
      {A : Type 0} (P : Effect → Type 0) (old committed : ExecutionDb) (r : Result A × ExecutionDb)
      → Calls P old r.1
      → Calls P old (settle w committed r).1
  unfolding settle rolled_back
  settle-Calls P old committed (ok a, db) c = c
  settle-Calls P old committed (err e, db) c = c

  fail_effects :
      (job : ExecutionJob) (e : Error) (db : ExecutionDb)
      → (fail_job w job e db).1.effects ≡ db.effects
  unfolding fail_job end_job complete_record
  fail_effects job e db = refl

  pub none_added : (P : Effect → Type 0) (db : ExecutionDb) → Frame P db db
  none_added P db = record {
    jobs = refl;
    records = refl;
    added = [];
    split = sym (append-nil db.effects);
    each = tt;
  }

  Calls-of_none :
      (P : Effect → Type 0) (old db : ExecutionDb) → db.effects ≡ old.effects → Calls P old db
  Calls-of_none P old db e = record {
    added = [];
    split = e ∙ sym (append-nil old.effects);
    each = tt;
  }

  work_on-Calls :
      (job : ExecutionJob) (principal : Principal) (username : String) (committed : ExecutionDb)
      (r : Result (RemediationPlan × PlanVersion) × ExecutionDb)
      → Ok (λ t d. IsChecked w job committed t × (d ≡ committed)) r
      → Calls
          (IsApproved w job.remediation_plan_id username committed)
          committed
          (work_on w job principal username committed r).1
  unfolding work_on
  work_on-Calls job principal username committed (ok (plan, version), db) (checked, same) =
      let P = IsApproved w job.remediation_plan_id username committed in
      settle-Calls P committed committed _ (
        subst (λ d. Calls P committed (run_plan w job principal username (plan, version) d).1)
          (sym same)
          (run_plan-Calls P committed w job plan version username
            (λ e g a. record {
              plan = plan;
              version = version;
              found = checked.0;
              usable = checked.1;
              asked = a;
              guarded = g;
            })
            principal committed (none_added P committed)))
  work_on-Calls job principal username committed (err e, db) o =
      Calls-of_none _ committed (fail_job w job e committed).1 (fail_effects job e committed)

  work-Calls :
      (job : ExecutionJob) (principal : Principal) (username : String) (committed : ExecutionDb)
      → Calls
          (IsApproved w job.remediation_plan_id username committed)
          committed
          (work w job principal username committed).1
  unfolding work
  work-Calls job principal username committed =
      work_on-Calls job principal username committed (recheck w job committed)
        (recheck-Ok job committed)

  -- What an answer's store keeps when the session is rolled back.
  rolled_same :
      (before db : ExecutionDb) → db.effects ≡ before.effects → rolled_back before db ≡ before
  unfolding rolled_back
  rolled_same before db h = ap (λ es. record before { effects = es }) h

  answer-Calls :
      {A : Type 0} (P : Effect → Type 0) (old : ExecutionDb) (f : ExecutionResponse → A)
      (r : Result ExecutionResponse × ExecutionDb)
      → Calls P old r.1
      → Calls P old (answer w f r).1
  unfolding answer
  answer-Calls P old f (ok a, db) c = c
  answer-Calls P old f (err e, db) c = c

  later-Calls :
      (P : Effect → Type 0) (before mid db : ExecutionDb)
      → mid.effects ≡ before.effects
      → Calls P mid db
      → Calls P before db
  later-Calls P before mid db h c = record {
    added = c.added;
    split = c.split ∙ ap (λ es. es ++ c.added) h;
    each = c.each;
  }

  proceed-Calls :
      (others : ExecutionDb → ExecutionDb)
      → ((db : ExecutionDb) → (others db).effects ≡ db.effects)
      → (plan_id : ℕ) (principal : Principal) (username : String) (before : ExecutionDb)
        (r : Result Accepted × ExecutionDb)
      → r.1.effects ≡ before.effects
      → Ok (λ a d. StartsFor plan_id a) r
      → Calls
          (IsApproved w plan_id username (others r.1))
          before
          (proceed w others principal username before r).1
  unfolding proceed rolled_back
  proceed-Calls others quiet plan_id principal username before (err e, db) h o =
      Calls-of_none _ before (rolled_back before db) h
  proceed-Calls others quiet plan_id principal username before (ok (previewed p), db) h o =
      Calls-of_none _ before (rolled_back before db) h
  proceed-Calls others quiet plan_id principal username before (ok (answered r), db) h o =
      Calls-of_none _ before (rolled_back before db) h
  proceed-Calls others quiet plan_id principal username before (ok (started job), db) h o =
      let P = IsApproved w plan_id username (others db) in
      let done = work w job principal username (others db) in
      answer-Calls P before _ done (
        later-Calls P before (others db) done.1 (quiet db ∙ h) (
          subst (λ n. Calls (IsApproved w n username (others db)) (others db) done.1) o
            (work-Calls job principal username (others db))))

  -- If what other transactions do adds no calls of executors, then each call that execute_plan
  -- adds, whatever its outcome, is for an action that is frozen in a version, or for an action
  -- of its rollback; in the store that the worker reads, the version is the newest approved one
  -- of the plan with the given number, has not expired, and has the hash of that plan. The tool
  -- is registered, the guard allowed the request on the store as it was at the call, less the
  -- row of the run that the call is for, and the call is made once at most for a mutation and
  -- four times at most otherwise.
  pub execute_plan-Calls :
      (others : ExecutionDb → ExecutionDb) (plan_id : ℕ) (principal : Principal)
      (username key : String) (dry_run : Bool) (before : ExecutionDb)
      → ((db : ExecutionDb) → (others db).effects ≡ db.effects)
      → Calls
          (IsApproved w plan_id username
            (others (accept w plan_id principal username key dry_run before).1))
          before
          (execute_plan w others plan_id principal username key dry_run before).1
  unfolding execute_plan
  execute_plan-Calls others plan_id principal username key dry_run before quiet =
      proceed-Calls others quiet plan_id principal username before
        (accept w plan_id principal username key dry_run before)
        (accept_effects w plan_id principal username key dry_run before)
        (accept-StartsFor w plan_id principal username key dry_run before)

  pub proceed_unstarted :
      (others : ExecutionDb → ExecutionDb) (principal : Principal) (username : String)
      (before : ExecutionDb) (r : Result Accepted × ExecutionDb)
      → r.1.effects ≡ before.effects
      → Ok (λ a d. is_started a ≡ false) r
      → (proceed w others principal username before r).1 ≡ before
  unfolding proceed is_started
  proceed_unstarted others principal username before (err e, db) h o = rolled_same before db h
  proceed_unstarted others principal username before (ok (previewed p), db) h o =
      rolled_same before db h
  proceed_unstarted others principal username before (ok (answered r), db) h o =
      rolled_same before db h
  proceed_unstarted others principal username before (ok (started job), db) h o =
      absurd (ground (arith, o))

  -- A dry run changes nothing and calls no executor, whatever its outcome.
  pub dry_run_unchanged :
      (others : ExecutionDb → ExecutionDb) (plan_id : ℕ) (principal : Principal)
      (username key : String) (before : ExecutionDb)
      → (execute_plan w others plan_id principal username key true before).1 ≡ before
  unfolding execute_plan
  dry_run_unchanged others plan_id principal username key before =
      proceed_unstarted others principal username before
        (accept w plan_id principal username key true before)
        (accept_effects w plan_id principal username key true before)
        (dry_run_starts_none w plan_id principal username key before)
