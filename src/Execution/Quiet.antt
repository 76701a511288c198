-- ===== src/Execution/Quiet.antt =====
-- What the acceptance of an execution keeps: an invariant, and the calls made so far.
use agenticops.Prelude.{
  ℕ, ◌+◌, String, ◌≡◌, refl, Bool, true, false, not, Option, none, some, List, [], ◌∷◌, if-both,
  str_eq, find?,
}
use agenticops.Prelude.Exec.{
  Exec, Error, Result, ok, err, type_error, lookup_error, value_error, some_or, continue, require,
}
use agenticops.Prelude.Json.{Json}
use agenticops.Cases.Store.{find_case}
use agenticops.Policy.Settings.{SettingsDb}
use agenticops.Policy.Guard.{PolicyDb, check}
use agenticops.Approvals.Store.{RemediationPlan, PlanVersion, ApprovalDb, Principal, is_plan}
use agenticops.Approvals.Decide.{active_approved_version}
use agenticops.Execution.Store.{
  has_idempotency, for_version, ExecutionJob, IdempotencyRecord, ExecutionDb, ExecutionResponse,
  policy_view, with_settings,
}
use agenticops.Execution.Actions.{World}
use agenticops.Execution.Loop.{request_for}
use agenticops.Execution.Accept.{
  audit_execution, announce_execution, Accepted, started, preview_actions, dry_run_preview, replay,
  prior_answer, start, start_unless, accept_version, accept, recommended, has_actions,
}

-- What holds of the value and the store when an action succeeds.
abbrev pub Ok : {A : Type 0} → (A → ExecutionDb → Type 0) → Result A × ExecutionDb → Type 0
Ok Q (ok a, db) = Q a db
Ok Q (err e, db) = Unit

pub Ok-continue :
    {A B : Type 0} (Q : B → ExecutionDb → Type 0) (r : Result A × ExecutionDb)
    (f : A → Exec ExecutionDb B)
    → ((a : A) (db : ExecutionDb) → Ok Q (f a db))
    → Ok Q (continue f r)
Ok-continue Q (ok a, db) f h = h a db
Ok-continue Q (err e, db) f h = tt

unfoldable pub is_started : Accepted → Bool
is_started (started job) = true
is_started _ = false

-- An invariant goes through a chain.
pub continue_holds :
    {A B : Type 0} (I : ExecutionDb → Type 0) (r : Result A × ExecutionDb)
    (f : A → Exec ExecutionDb B)
    → I r.1
    → ((a : A) (db : ExecutionDb) → I db → I (f a db).1)
    → I (continue f r).1
continue_holds I (ok a, db) f i h = h a db i
continue_holds I (err e, db) f i h = i

pub some_or_holds :
    {A : Type 0} (I : ExecutionDb → Type 0) (o : Option A) (e : Error) (db : ExecutionDb)
    → I db
    → I (some_or o e db).1
some_or_holds I none e db i = i
some_or_holds I (some a) e db i = i

require_holds :
    (I : ExecutionDb → Type 0) (b : Bool) (e : Error) (db : ExecutionDb)
    → I db
    → I (require b e db).1
require_holds I true e db i = i
require_holds I false e db i = i

-- An invariant that new settings, new approval rows and the start of a first job for a version keep.
pub record IsKept (w : World) (I : ExecutionDb → Type 0) : Type 0 where
  pub settings : (db : ExecutionDb) (s : SettingsDb) → I db → I (record db { settings = s })
  pub approvals : (db : ExecutionDb) (a : ApprovalDb) → I db → I (record db { approvals = a })
  pub start :
      (plan : RemediationPlan) (version : PlanVersion) (principal : Principal) (key h : String)
      (db : ExecutionDb)
      → find? (for_version version.id) db.jobs ≡ none
      → I db
      → I (start w plan version principal key h db).1

module _ (w : World) (I : ExecutionDb → Type 0) (kept : IsKept w I) where
  settings_holds : (o : Option PolicyDb) (db : ExecutionDb) → I db → I (with_settings o db)
  unfolding with_settings
  settings_holds none db i = i
  settings_holds (some p) db i = kept.settings db p.settings i

  preview_holds :
      (plan : RemediationPlan) (username : String) (index : ℕ) (actions : List Json)
      (db : ExecutionDb)
      → I db
      → I (preview_actions w plan username index actions db).1
  unfolding preview_actions
  preview_holds plan username index [] db i = i
  preview_holds plan username index (action ∷ rest) db i =
      let o = request_for w plan username action in
      let e = type_error "action is not a dict" in
      continue_holds I (some_or o e db) _ (some_or_holds I o e db i) (λ q d g.
        let r =
          check w.srv.python w.srv.tools w.observe_only w.worker_now q.tool
            (some plan.approval_status) (some (policy_view d)) in
        let d' = with_settings r.1 d in
        continue_holds I (preview_actions w plan username (index + 1) rest d') _
          (preview_holds plan username (index + 1) rest d' (settings_holds r.1 d g))
          (λ entries z k. k))

  replay_holds :
      (r : IdempotencyRecord) (h : String) (db : ExecutionDb) → I db → I (replay w r h db).1
  unfolding replay
  replay_holds r h db i =
      if-both {A = Exec ExecutionDb Accepted} (λ m. I (m db).1) (not (str_eq r.request_hash h)) i
        (if-both {A = Exec ExecutionDb Accepted} (λ m. I (m db).1) (str_eq r.status "completed") i
          i)

  prior_holds : (o : Option ExecutionResponse) (db : ExecutionDb) → I db → I (prior_answer w o db).1
  unfolding prior_answer
  prior_holds (some r) db i = i
  prior_holds none db i = i

  start_holds :
      (o : Option IdempotencyRecord) (prior : Option ExecutionJob) (plan : RemediationPlan)
      (version : PlanVersion) (principal : Principal) (key h : String) (db : ExecutionDb)
      → find? (for_version version.id) db.jobs ≡ prior
      → I db
      → I (start_unless w o prior plan version principal key h db).1
  unfolding start_unless
  start_holds (some r) prior plan version principal key h db e i = replay_holds r h db i
  start_holds none (some job) plan version principal key h db e i = prior_holds job.result db i
  start_holds none none plan version principal key h db e i =
      kept.start plan version principal key h db e i

  accept_version_holds :
      (plan : RemediationPlan) (version : PlanVersion) (principal : Principal) (key : String)
      (db : ExecutionDb)
      → I db
      → I (accept_version w plan version principal key db).1
  unfolding accept_version
  accept_version_holds plan version principal key db i =
      start_holds (find? (has_idempotency "plan.execute" key) db.records)
        (find? (for_version version.id) db.jobs) plan version principal key
        (w.request_digest plan.id version.id version.plan_hash) db refl i

  pub accept_holds :
      (plan_id : ℕ) (principal : Principal) (username key : String) (dry_run : Bool)
      (db : ExecutionDb)
      → I db
      → I (accept w plan_id principal username key dry_run db).1
  unfolding accept dry_run_preview
  accept_holds plan_id principal username key dry_run db i =
      let o = find? (is_plan plan_id) db.approvals.plans in
      let missing = lookup_error "Plan not found" in
      continue_holds I (some_or o missing db) _ (some_or_holds I o missing db i) (λ plan d h.
        let o' = find_case plan.case_id d.approvals.cases in
        let missing' = lookup_error "Case not found" in
        continue_holds I (some_or o' missing' d) _ (some_or_holds I o' missing' d h) (λ c d' h'.
          let a = active_approved_version w.srv w.now plan d'.approvals in
          continue_holds I (a.0, record d' { approvals = a.1 }) _ (kept.approvals d' a.1 h')
            (λ version z k.
              let actions = recommended version.canonical_payload.plan_payload in
              let empty = value_error "Plan has no recommended actions" in
              continue_holds I (require (has_actions actions) empty z) _
                (require_holds I (has_actions actions) empty z k)
                (λ u z' k'.
                  if-both {A = Exec ExecutionDb Accepted} (λ m. I (m z').1) dry_run
                    (continue_holds I (preview_actions w plan username 1 actions z') _
                      (preview_holds plan username 1 actions z' k') (λ entries y m. m))
                    (accept_version_holds plan version principal key z' k')))))

module _ (w : World) where
  -- The acceptance calls nothing.
  pub accept_effects :
      (plan_id : ℕ) (principal : Principal) (username key : String) (dry_run : Bool)
      (db : ExecutionDb)
      → (accept w plan_id principal username key dry_run db).1.effects ≡ db.effects
  unfolding start audit_execution announce_execution
  accept_effects plan_id principal username key dry_run db =
      accept_holds w (λ d. d.effects ≡ db.effects)
        (record {
          settings = λ d s i. i;
          approvals = λ d a i. i;
          start = λ plan version principal key h d e i. i;
        })
        plan_id principal username key dry_run db refl

  -- A dry run starts no job.
  pub dry_run_starts_none :
      (plan_id : ℕ) (principal : Principal) (username key : String) (db : ExecutionDb)
      → Ok (λ a d. is_started a ≡ false) (accept w plan_id principal username key true db)
  unfolding accept dry_run_preview is_started
  dry_run_starts_none plan_id principal username key db =
      let Q : Accepted → ExecutionDb → Type 0 = λ a d. is_started a ≡ false in
      Ok-continue Q
        (some_or (find? (is_plan plan_id) db.approvals.plans) (lookup_error "Plan not found") db) _
        (λ plan d.
          Ok-continue Q
            (some_or (find_case plan.case_id d.approvals.cases) (lookup_error "Case not found") d) _
            (λ c d'.
              let a = active_approved_version w.srv w.now plan d'.approvals in
              Ok-continue Q (a.0, record d' { approvals = a.1 }) _
                (λ version z.
                  let actions = recommended version.canonical_payload.plan_payload in
                  Ok-continue Q
                    (require (has_actions actions) (value_error "Plan has no recommended actions")
                      z)
                    _
                    (λ u z'.
                      Ok-continue Q (preview_actions w plan username 1 actions z') _
                        (λ entries y. refl)))))
