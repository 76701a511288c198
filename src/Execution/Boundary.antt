-- ===== src/Execution/Boundary.antt =====
-- Lemmas on the rollback and on the whole of a run of a plan's frozen actions.
use mathlib.Core.List.{Mem, mem-cons_self, mem-cons_of_mem}
use agenticops.Prelude.{
  ℕ, ◌+◌, String, ◌≡◌, Bool, true, ◌&&◌, Option, none, some, List, [], ◌∷◌, ◌++◌, if-cases, length,
  if◌then◌else◌, All, ◌⊎◌, inl, inr, if-both, subst, sym,
}
use agenticops.Prelude.Exec.{Exec, type_error}
use agenticops.Prelude.Json.{Json, Fields}
use agenticops.Cases.Status.{CaseStatus}
use agenticops.Cases.Transition.{TransitionRequest}
use agenticops.Tools.Spec.{ToolSpec}
use agenticops.Tools.Registry.{get}
use agenticops.Policy.Guard.{PolicyDecision, check}
use agenticops.Approvals.Store.{RemediationPlan, RemediationPlanStatus, PlanVersion, Principal}
use agenticops.Execution.Requests.{PlanRequest}
use agenticops.Execution.Store.{
  ExecutionRun, ExecutionJob, Effect, ExecutionDb, Summary, policy_view, with_settings,
}
use agenticops.Execution.Actions.{
  World, Progress, fresh_progress, guard_check, new_execution_run, create_execution_run, save_run,
  record_action_result,
}
use agenticops.Execution.Loop.{request_for, run_actions}
use agenticops.Execution.Rollback.{
  rollback_result, rollback_request, execute_rollback, Ending, ending,
}
use agenticops.Execution.Accept.{recommended, on_approvals}
use agenticops.Execution.Plan.{
  set_plan_status, state_request, move_case, move_to, outcome_request, rollback_if, finish,
  run_plan, end_job, complete_record,
}
use agenticops.Execution.Frame.{
  Calls, Calls-of_Frame, Frame-ends, IsGuarded, Frame, Frame-continue, execute_allowed-Frame,
}
use agenticops.Execution.Guarded.{
  settings-Frame, Allows, AsksFor, allowed-Allows, asked-Frame, view-made, run_actions-Frame,
}

-- The request is that of an action of the frozen version, or of its rollback.
pub record IsAsked (w : World) (plan : RemediationPlan) (version : PlanVersion) (username : String)
    (q : PlanRequest) : Type 0 where
  pub action : Json
  pub frozen :
      Mem action (recommended version.canonical_payload.plan_payload)
      ⊎ Mem action (recommended version.canonical_payload.rollback_payload)
  pub built : request_for w plan username action ≡ some q

members : (as_ bs : List Json) → ((a : Json) → Mem a as_ → Mem a bs) → All (λ a. Mem a bs) as_
members [] bs h = tt
members (a ∷ as_) bs h = (h a mem-cons_self, members as_ bs (λ b m. h b (mem-cons_of_mem a m)))

All-map : (Q R : Json → Type 0) (as_ : List Json) → ((a : Json) → Q a → R a) → All Q as_ → All R as_
All-map Q R [] h as' = tt
All-map Q R (a ∷ as_) h as' = (h a as'.0, All-map Q R as_ h as'.1)

module _ (P : Effect → Type 0) (old : ExecutionDb) (w : World) (job : ExecutionJob)
    (plan : RemediationPlan) (version : PlanVersion) (username : String)
    (guarded : (e : Effect)
      → IsGuarded w plan e
      → IsAsked w plan version username e.request
      → P e) where
  abbrev Asked : PlanRequest → Type 0
  Asked = IsAsked w plan version username

  abbrev Asks : Json → Type 0
  Asks action = AsksFor P old w job plan Asked guarded username action

  plan-Asks : All Asks (recommended version.canonical_payload.plan_payload)
  plan-Asks =
      let as_ = recommended version.canonical_payload.plan_payload in
      All-map (λ a. Mem a as_) Asks as_
        (λ a m q e. record { action = a; frozen = inl m; built = e }) (members as_ as_ (λ a m. m))

  rollback-Asks : All Asks (recommended version.canonical_payload.rollback_payload)
  rollback-Asks =
      let as_ = recommended version.canonical_payload.rollback_payload in
      All-map (λ a. Mem a as_) Asks as_
        (λ a m q e. record { action = a; frozen = inr m; built = e }) (members as_ as_ (λ a m. m))

  result-Frame :
      (q : PlanRequest) (spec : Option ToolSpec) (decision : PolicyDecision) (run : ExecutionRun)
      (db : ExecutionDb)
      → (decision.allowed ≡ true → Allows P old w job plan q spec (policy_view db))
      → Frame P old db
      → Frame P old (rollback_result w job plan q spec decision run db).1
  unfolding rollback_result
  result-Frame q spec decision run db a f =
      if-cases {A = Exec ExecutionDb Fields} (λ m. Frame P old (m db).1) decision.allowed
        (λ yes_. execute_allowed-Frame P old w run q spec db (λ s n. a yes_ run.id n s) f)
        (λ blocked. f)

  rollback_request-Frame :
      (index : ℕ) (q : PlanRequest) (acc : Bool × List Summary) (db : ExecutionDb)
      → Asked q
      → Frame P old db
      → Frame P old (rollback_request w job plan index q (get w.srv.tools q.tool.tool_id) acc db).1
  unfolding rollback_request guard_check create_execution_run save_run record_action_result
  rollback_request-Frame index q acc db o f =
      let r =
        check w.srv.python w.srv.tools w.observe_only w.worker_now q.tool
          (some plan.approval_status) (some (policy_view db)) in
      let g = settings-Frame P old db r.1 f in
      let spec = get w.srv.tools q.tool.tool_id in
      let d = with_settings r.1 db in
      let run = new_execution_run w d.next_run_id plan q spec index r.0 in
      let made = (create_execution_run w plan q spec index r.0 d).1 in
      Frame-continue P old (rollback_result w job plan q spec r.0 run made) _
        (result-Frame q spec r.0 run made
          (λ yes_.
            subst (Allows P old w job plan q spec) (sym (view-made r.1 db run))
              (allowed-Allows P old w job plan Asked guarded q db run o yes_))
          g)
        (λ result d' g'. g')

  execute_rollback-Frame :
      (index : ℕ) (actions : List Json) (acc : Bool × List Summary) (db : ExecutionDb)
      → All Asks actions
      → Frame P old db
      → Frame P old (execute_rollback w job plan username index actions acc db).1
  unfolding execute_rollback
  execute_rollback-Frame index [] acc db a f = f
  execute_rollback-Frame index (action ∷ rest) acc db a f =
      let o = request_for w plan username action in
      let e = type_error "action is not a dict" in
      asked-Frame P old Asked o a.0 e db f _ (λ q d asked g.
        Frame-continue P old
          (rollback_request w job plan index q (get w.srv.tools q.tool.tool_id) acc d) _
          (rollback_request-Frame index q acc d asked g)
          (λ acc' d' g'. execute_rollback-Frame (index + 1) rest acc' d' a.1 g'))

  rollback_if-Frame :
      (index : ℕ) (actions : List Json) (db : ExecutionDb)
      → All Asks actions
      → Frame P old db
      → Frame P old (rollback_if w job plan username index actions db).1
  unfolding rollback_if
  rollback_if-Frame index [] db asks f = f
  rollback_if-Frame index (a ∷ as_) db asks f =
      Frame-continue P old (execute_rollback w job plan username index (a ∷ as_) (true, []) db) _
        (execute_rollback-Frame index (a ∷ as_) (true, []) db asks f) (λ r d g. g)

  move-Frame :
      (q : TransitionRequest) (db : ExecutionDb) → Frame P old db → Frame P old (move_case w q db).1
  unfolding move_case on_approvals
  move-Frame q db f = f

  move_to-Frame :
      (status : RemediationPlanStatus) (target : Option (CaseStatus × String)) (db : ExecutionDb)
      → Frame P old db
      → Frame P old (move_to w job status target db).1
  unfolding move_to
  move_to-Frame status none db f = f
  move_to-Frame status (some (to_state, phase)) db f =
      let q = outcome_request w job status to_state phase in
      Frame-continue P old (move_case w q db) _ (move-Frame q db f) (λ r d g. g)

  -- What holds after the frame and after `finish` holds after the run.
  pub run_plan-ends :
      (Q : ExecutionDb → Type 0) (principal : Principal) (db : ExecutionDb)
      → ((db : ExecutionDb) → Frame P old db → Q db)
      → ((p : Progress) (e : Ending) (summaries : List Summary) (db : ExecutionDb)
          → Frame P old db
          → Q (finish w job plan principal p e summaries db).1)
      → Frame P old db
      → Q (run_plan w job principal username (plan, version) db).1
  unfolding run_plan set_plan_status
  run_plan-ends Q principal db keep close f =
      let started = (set_plan_status plan.id RemediationPlanStatus.executing db).1 in
      let q =
        state_request w job CaseStatus.executing "approved frozen plan execution started" "started"
          "executing" in
      let actions = recommended version.canonical_payload.plan_payload in
      Frame-ends P old Q keep (move_case w q started) _ (move-Frame q started f) (λ row d g.
        Frame-ends P old Q keep (run_actions w job plan username 1 actions fresh_progress d) _
          (run_actions-Frame P old w job plan Asked guarded username 1 actions fresh_progress d
            plan-Asks g)
          (λ p d' g'.
            let back =
              if p.allowed_success && p.hard_failure
              then recommended version.canonical_payload.rollback_payload
              else [] in
            Frame-ends P old Q keep (rollback_if w job plan username (length actions + 1) back d') _
              (rollback_if-Frame (length actions + 1) back d'
                (if-both (All Asks) (p.allowed_success && p.hard_failure) rollback-Asks tt) g')
              (λ rolled d'' g''.
                let e = ending rolled.0 p in
                let noted = (set_plan_status plan.id e.plan_status d'').1 in
                Frame-ends P old Q keep (move_to w job e.plan_status e.target noted) _
                  (move_to-Frame e.plan_status e.target noted g'')
                  (λ u z k. close p e (p.summaries ++ rolled.1) z k))))

  pub run_plan-Calls :
      (principal : Principal) (db : ExecutionDb)
      → Frame P old db
      → Calls P old (run_plan w job principal username (plan, version) db).1
  unfolding finish end_job complete_record
  run_plan-Calls principal db f =
      run_plan-ends (Calls P old) principal db (Calls-of_Frame P old)
        (λ p e summaries d g. Calls-of_Frame P old d g) f
