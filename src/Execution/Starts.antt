-- ===== src/Execution/Starts.antt =====
-- Lemmas on the job that an acceptance starts.
use agenticops.Prelude.{
  subst, ℕ, String, ◌≡◌, refl, Bool, true, arith, str_eq, find?, find?-holds, if-both, not, Option,
  none, some,
}
use agenticops.Prelude.Exec.{Exec, lookup_error, value_error, some_or, require, continue, Error}
use agenticops.Cases.Store.{find_case}
use agenticops.Approvals.Store.{RemediationPlan, PlanVersion, Principal, is_plan}
use agenticops.Approvals.Decide.{active_approved_version}
use agenticops.Execution.Store.{
  IdempotencyRecord, has_idempotency, for_version, ExecutionJob, ExecutionDb, ExecutionResponse,
}
use agenticops.Execution.Actions.{World}
use agenticops.Execution.Accept.{
  preview_actions, dry_run_preview, audit_execution, announce_execution, replay, prior_answer,
  start, start_unless, accept_version, recommended, has_actions, new_job, Accepted, started, accept,
}
use agenticops.Execution.Quiet.{Ok, Ok-continue}

-- A job that was started is for the plan.
abbrev pub StartsFor : ℕ → Accepted → Type 0
StartsFor n (started job) = job.remediation_plan_id ≡ n
StartsFor n _ = Unit

is_plan-id : (n : ℕ) (plan : RemediationPlan) → is_plan n plan ≡ true → plan.id ≡ n
unfolding is_plan
is_plan-id n plan h = ground (arith, h)

Ok-some_or :
    {A B : Type 0} (Q : B → ExecutionDb → Type 0) (o : Option A) (e : Error) (db : ExecutionDb)
    (f : A → Exec ExecutionDb B)
    → ((a : A) → o ≡ some a → Ok Q (f a db))
    → Ok Q (continue f (some_or o e db))
Ok-some_or Q none e db f h = tt
Ok-some_or Q (some a) e db f h = h a refl

module _ (w : World) where
  prior-StartsFor :
      (n : ℕ) (o : Option ExecutionResponse) (db : ExecutionDb)
      → Ok (λ a d. StartsFor n a) (prior_answer w o db)
  unfolding prior_answer
  prior-StartsFor n (some r) db = tt
  prior-StartsFor n none db = tt

  start-StartsFor :
      (o : Option IdempotencyRecord) (prior : Option ExecutionJob) (plan : RemediationPlan)
      (version : PlanVersion) (principal : Principal) (key h : String) (db : ExecutionDb)
      → Ok (λ a d. StartsFor plan.id a) (start_unless w o prior plan version principal key h db)
  unfolding start_unless replay prior_answer start audit_execution announce_execution new_job
  start-StartsFor (some r) prior plan version principal key h db =
      if-both {A = Exec ExecutionDb Accepted} (λ m. Ok (λ a d. StartsFor plan.id a) (m db))
        (not (str_eq r.request_hash h)) tt
        (if-both {A = Exec ExecutionDb Accepted} (λ m. Ok (λ a d. StartsFor plan.id a) (m db))
          (str_eq r.status "completed") tt tt)
  start-StartsFor none (some job) plan version principal key h db =
      prior-StartsFor plan.id job.result db
  start-StartsFor none none plan version principal key h db = refl

  pub accept-StartsFor :
      (plan_id : ℕ) (principal : Principal) (username key : String) (dry_run : Bool)
      (db : ExecutionDb)
      → Ok (λ a d. StartsFor plan_id a) (accept w plan_id principal username key dry_run db)
  unfolding accept dry_run_preview accept_version
  accept-StartsFor plan_id principal username key dry_run db =
      let Q : Accepted → ExecutionDb → Type 0 = λ a d. StartsFor plan_id a in
      let rows = db.approvals.plans in
      Ok-some_or Q (find? (is_plan plan_id) rows) (lookup_error "Plan not found") db _
        (λ plan found.
          let same = is_plan-id plan_id plan (find?-holds (is_plan plan_id) rows found) in
          Ok-continue Q
            (some_or (find_case plan.case_id db.approvals.cases) (lookup_error "Case not found") db)
            _
            (λ c d.
              let a = active_approved_version w.srv w.now plan d.approvals in
              Ok-continue Q (a.0, record d { approvals = a.1 }) _
                (λ version z.
                  let actions = recommended version.canonical_payload.plan_payload in
                  Ok-continue Q
                    (require (has_actions actions) (value_error "Plan has no recommended actions")
                      z)
                    _
                    (λ u y.
                      if-both {A = Exec ExecutionDb Accepted} (λ m. Ok Q (m y)) dry_run
                        (Ok-continue Q (preview_actions w plan username 1 actions y) _
                          (λ entries x. tt))
                        (subst
                          (λ n.
                            Ok (λ a' d'. StartsFor n a')
                              (accept_version w plan version principal key y))
                          same
                          (start-StartsFor (find? (has_idempotency "plan.execute" key) y.records)
                            (find? (for_version version.id) y.jobs) plan version principal key
                            (w.request_digest plan.id version.id version.plan_hash) y))))))
