-- ===== src/Execution/Guarded.antt =====
-- Lemmas on the steps of the loop of `execute_plan`, and the guard's part in them.
use agenticops.Prelude.{
  ℕ, ◌+◌, ◌≤◌, String, ◌≡◌, Bool, true, false, Option, none, some, List, [], ◌∷◌, if-cases,
  Bool-cases, inl, inr, All, ap, refl, sym, subst, ◌++◌,
}
use mathlib.Core.List.{map-append}
use agenticops.Execution.Quiet.{continue_holds, some_or_holds}
use agenticops.Prelude.Exec.{Exec, Error, type_error, some_or, continue}
use agenticops.Prelude.Json.{Json, Fields}
use agenticops.Tools.Spec.{ToolSpec}
use agenticops.Tools.Registry.{get}
use agenticops.Policy.Guard.{PolicyDb, PolicyDecision, check}
use agenticops.Approvals.Store.{RemediationPlan}
use agenticops.Verifications.Store.{VerificationRun}
use agenticops.Execution.Requests.{PlanRequest}
use agenticops.Execution.Store.{
  ExecutionRun, ExecutionJob, Effect, ExecutionDb, policy_view, run_row, with_settings,
  with_verification,
}
use agenticops.Execution.Actions.{
  World, Progress, is_advisory, is_mutation, guard_check, new_execution_run, create_execution_run,
  save_run, record_action_result,
}
use agenticops.Execution.Steps.{
  execute_allowed_action, succeeded_result, capture, is_ready, verify_action, reload,
}
use agenticops.Execution.Loop.{
  skip_action, block_action, fail_baseline, verify_if, perform_action, with_baseline, allow_action,
  checked_action, run_request, request_for, run_actions, finished_run,
}
use agenticops.Execution.Frame.{
  IsGuarded, with_run, call_limit, Frame-through, Frame, Frame-continue, execute_allowed-Frame,
}

pub settings-Frame :
    (P : Effect → Type 0) (old db : ExecutionDb) (o : Option PolicyDb)
    → Frame P old db
    → Frame P old (with_settings o db)
unfolding with_settings
settings-Frame P old db none f = f
settings-Frame P old db (some s) f = f

-- What the guard would read after its check and the run's row.
pub view-made :
    (o : Option PolicyDb) (db : ExecutionDb) (run : ExecutionRun)
    → policy_view (record (with_settings o db) {
      runs = (with_settings o db).runs ++ run ∷ [];
      next_run_id = (with_settings o db).next_run_id + 1;
    })
      ≡ with_run o (policy_view db) (run_row run)
unfolding policy_view with_settings with_run
view-made none db run =
    ap (λ rows. record { settings = db.settings; runs = rows })
      (map-append run_row db.runs (run ∷ []))
view-made (some s) db run =
    ap (λ rows. record { settings = s.settings; runs = rows })
      (map-append run_row db.runs (run ∷ []))

-- A chain that starts with a request, for one that has `R`.
pub asked-Frame :
    (P : Effect → Type 0) (old : ExecutionDb) (R : PlanRequest → Type 0) (o : Option PlanRequest)
    → ((q : PlanRequest) → o ≡ some q → R q)
    → (e : Error) (db : ExecutionDb) → Frame P old db
    → {B : Type 0} (f : PlanRequest → Exec ExecutionDb B)
    → ((q : PlanRequest) (d : ExecutionDb) → R q → Frame P old d → Frame P old (f q d).1)
    → Frame P old (continue f (some_or o e db)).1
asked-Frame P old R none a e db i f h = i
asked-Frame P old R (some q) a e db i f h = h q db (a q refl) i

module _ (P : Effect → Type 0) (old : ExecutionDb) (w : World) (job : ExecutionJob)
    (plan : RemediationPlan) where
  skip-Frame :
      (index : ℕ) (q : PlanRequest) (spec : Option ToolSpec) (p : Progress) (db : ExecutionDb)
      → Frame P old db
      → Frame P old (skip_action w job plan index q spec p db).1
  unfolding skip_action record_action_result
  skip-Frame index q spec p db f = f

  block-Frame :
      (index : ℕ) (q : PlanRequest) (spec : Option ToolSpec) (decision : PolicyDecision)
      (run : ExecutionRun) (p : Progress) (db : ExecutionDb)
      → Frame P old db
      → Frame P old (block_action w job plan index q spec decision run p db).1
  unfolding block_action save_run record_action_result
  block-Frame index q spec decision run p db f = f

  fail-Frame :
      (index : ℕ) (q : PlanRequest) (spec : Option ToolSpec) (decision : PolicyDecision)
      (run : ExecutionRun) (v : VerificationRun) (p : Progress) (db : ExecutionDb)
      → Frame P old db
      → Frame P old (fail_baseline w job plan index q spec decision run v p db).1
  unfolding fail_baseline save_run record_action_result
  fail-Frame index q spec decision run v p db f = f

  verdict-Frame :
      (run : ExecutionRun) (v : VerificationRun) (index : ℕ) (db : ExecutionDb)
      → Frame P old db
      → Frame P old (verify_action w run v index db).1
  unfolding verify_action with_verification
  verdict-Frame run v index db f = f

  verify-Frame :
      (done : Bool) (v : Option VerificationRun) (index : ℕ) (result : Fields) (run : ExecutionRun)
      (db : ExecutionDb)
      → Frame P old db
      → Frame P old (verify_if w job plan done v index result run db).1
  unfolding verify_if reload save_run
  verify-Frame true (some v) index result run db f =
      Frame-continue P old (verify_action w run v index db) _ (verdict-Frame run v index db f)
        (λ view d g. g)
  verify-Frame true none index result run db f = f
  verify-Frame false v index result run db f = f

  -- What the guard's allowance of a request vouches for: any call within the limit of its tool.
  abbrev pub Allows : PlanRequest → Option ToolSpec → PolicyDb → Type 0
  Allows q spec store =
      (id n : ℕ) (s : ToolSpec)
      → spec ≡ some s
      → n ≤ call_limit s
      → P (record { execution_run_id = id; request = q; calls = n; store = store })

  -- The frame, on a store of which the guard would read the same.
  abbrev Seen : PolicyDb → ExecutionDb → Type 0
  Seen store db = Frame P old db × (policy_view db ≡ store)

  perform-Frame :
      (index : ℕ) (q : PlanRequest) (spec : Option ToolSpec) (decision : PolicyDecision)
      (run : ExecutionRun) (v : Option VerificationRun) (p : Progress) (db : ExecutionDb)
      → Allows q spec (policy_view db)
      → Frame P old db
      → Frame P old (perform_action w job plan index q spec decision run v p db).1
  unfolding perform_action save_run reload record_action_result
  perform-Frame index q spec decision run v p db a f =
      Frame-continue P old (execute_allowed_action w run q spec db) _
        (execute_allowed-Frame P old w run q spec db (λ s n. a run.id n s) f)
        (λ result d g.
          let run' = finished_run w.worker_now (succeeded_result w result) result run in
          let saved = (save_run w run' d).1 in
          Frame-continue P old
            (verify_if w job plan (succeeded_result w result) v index result run' saved) _
            (verify-Frame (succeeded_result w result) v index result run' saved g)
            (λ verdict d' g'. g'))

  capture-Seen :
      (q : PlanRequest) (index : ℕ) (db : ExecutionDb) (store : PolicyDb)
      → Seen store db
      → Seen store (capture w job q index db).1
  unfolding capture policy_view
  capture-Seen q index db store f =
      continue_holds (Seen store) (some_or _ _ db) _ (some_or_holds (Seen store) _ _ db f)
        (λ policy d g. g)

  baseline-Frame :
      (index : ℕ) (q : PlanRequest) (spec : Option ToolSpec) (decision : PolicyDecision)
      (run : ExecutionRun) (v : VerificationRun) (p : Progress) (db : ExecutionDb)
      → Allows q spec (policy_view db)
      → Frame P old db
      → Frame P old (with_baseline w job plan index q spec decision run v p db).1
  unfolding with_baseline
  baseline-Frame index q spec decision run v p db a f = elim (Bool-cases (is_ready v.status)) [
    | inl ready ↦ rw ready (perform-Frame index q spec decision run (some v) p db a f)
    | inr unready ↦ rw unready (fail-Frame index q spec decision run v p db f)
  ]

  allow-Frame :
      (index : ℕ) (q : PlanRequest) (spec : Option ToolSpec) (decision : PolicyDecision)
      (run : ExecutionRun) (p : Progress) (db : ExecutionDb)
      → Allows q spec (policy_view db)
      → Frame P old db
      → Frame P old (allow_action w job plan index q spec decision run p db).1
  unfolding allow_action
  allow-Frame index q spec decision run p db a f = elim (Bool-cases (is_mutation spec)) [
    | inr other ↦ rw other (perform-Frame index q spec decision run none p db a f)
    | inl mutating ↦ rw mutating (
        Frame-through P old (Seen (policy_view db)) (λ d s. s.0) (capture w job q index db) _
          (capture-Seen q index db (policy_view db) (f, refl))
          (λ v d s.
            baseline-Frame index q spec decision run v p d (subst (Allows q spec) (sym s.1) a) s.0))
  ]

  module _ (R : PlanRequest → Type 0)
      (guarded : (e : Effect) → IsGuarded w plan e → R e.request → P e) where
    -- What the request of an action has.
    abbrev pub AsksFor : String → Json → Type 0
    AsksFor username action = (q : PlanRequest) → request_for w plan username action ≡ some q → R q

    pub allowed-Allows :
        (q : PlanRequest) (db : ExecutionDb) (run : ExecutionRun)
        → R q
        → (check w.srv.python w.srv.tools w.observe_only w.worker_now q.tool
            (some plan.approval_status)
            (some (policy_view db))).0.allowed
          ≡ true
        → Allows q (get w.srv.tools q.tool.tool_id) (
            with_run
              (check w.srv.python w.srv.tools w.observe_only w.worker_now q.tool
                (some plan.approval_status)
                (some (policy_view db))).1
              (policy_view db)
              (run_row run))
    allowed-Allows q db run o h id n s found le =
        guarded _
          (record {
            spec = s;
            policy = policy_view db;
            row = run_row run;
            registered = found;
            allowed = h;
            current = refl;
            limited = le;
          })
          o

    checked-Frame :
        (index : ℕ) (q : PlanRequest) (p : Progress) (db : ExecutionDb)
        → R q
        → Frame P old db
        → Frame P old (checked_action w job plan index q (get w.srv.tools q.tool.tool_id) p db).1
    unfolding checked_action guard_check create_execution_run
    checked-Frame index q p db o f =
        let r =
          check w.srv.python w.srv.tools w.observe_only w.worker_now q.tool
            (some plan.approval_status) (some (policy_view db)) in
        let g = settings-Frame P old db r.1 f in
        let spec = get w.srv.tools q.tool.tool_id in
        let d = with_settings r.1 db in
        let run = new_execution_run w d.next_run_id plan q spec index r.0 in
        let made = (create_execution_run w plan q spec index r.0 d).1 in
        if-cases {A = Exec ExecutionDb Progress} (λ m. Frame P old (m made).1) r.0.allowed
          (λ yes_.
            allow-Frame index q spec r.0 run p made
              (subst (Allows q spec) (sym (view-made r.1 db run)) (allowed-Allows q db run o yes_))
              g)
          (λ blocked. block-Frame index q spec r.0 run p made g)

    request-Frame :
        (index : ℕ) (q : PlanRequest) (p : Progress) (db : ExecutionDb)
        → R q
        → Frame P old db
        → Frame P old (run_request w job plan index q p db).1
    unfolding run_request
    request-Frame index q p db o f = elim (Bool-cases (is_advisory q)) [
      | inl advisory ↦ rw advisory (skip-Frame index q (get w.srv.tools q.tool.tool_id) p db f)
      | inr active ↦ rw active (checked-Frame index q p db o f)
    ]

    pub run_actions-Frame :
        (username : String) (index : ℕ) (actions : List Json) (p : Progress) (db : ExecutionDb)
        → All (AsksFor username) actions
        → Frame P old db
        → Frame P old (run_actions w job plan username index actions p db).1
    unfolding run_actions
    run_actions-Frame username index [] p db a f = f
    run_actions-Frame username index (action ∷ rest) p db a f =
        let o = request_for w plan username action in
        let e = type_error "action is not a dict" in
        asked-Frame P old R o a.0 e db f _ (λ q d asked g.
          Frame-continue P old (run_request w job plan index q p d) _
            (request-Frame index q p d asked g)
            (λ p' d' g'. run_actions-Frame username (index + 1) rest p' d' a.1 g'))
