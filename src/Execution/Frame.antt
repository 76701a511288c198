-- ===== src/Execution/Frame.antt =====
-- What the loop over the actions leaves alone, and which calls of executors it adds.
use agenticops.Prelude.{
  ℕ, ◌+◌, ◌≤◌, ◌≡◌, refl, ◌∙◌, ap, Bool, true, Option, none, some, List, [], ◌∷◌, ◌++◌, All,
  All-append, or_else, str_eq, Bool-cases, inl, inr, if◌then◌else◌,
}
use agenticops.Prelude.Exec.{Exec, Error, Result, ok, err, some_or, continue}
use agenticops.Prelude.Json.{Fields}
use agenticops.Tools.Spec.{ToolSpec}
use agenticops.Tools.Registry.{get}
use agenticops.Policy.Settings.{SettingsDb}
use mathlib.Core.List.{append_assoc}
use agenticops.Policy.Guard.{RunRow, PolicyDb, check}
use agenticops.Approvals.Store.{RemediationPlan}
use agenticops.Execution.Engine.{
  default_retry_policy, ExecutorType, Executor, Trial, execute_action, executor_type_of,
}
use agenticops.Execution.Attempts.{execute_action_limited}
use agenticops.Execution.Requests.{PlanRequest}
use agenticops.Execution.Store.{
  ExecutionRun, ExecutionJob, IdempotencyRecord, Effect, ExecutionDb, policy_view,
}
use agenticops.Execution.Actions.{World}
use agenticops.Execution.Steps.{
  retry_policy_of, action_config, tried, execute_typed, execute_allowed_action, notify,
}

-- A mutation is called once at most, any other action four times.
unfoldable pub call_limit : ToolSpec → ℕ
call_limit spec = if str_eq spec.capability "mutation" then 1 else 4

-- The store that the guard leaves, with the row of the run that is then written.
unfoldable pub with_run : Option PolicyDb → PolicyDb → RunRow → PolicyDb
with_run none p row = record p { runs = p.runs ++ row ∷ [] }
with_run (some q) p row = record { settings = q.settings; runs = p.runs ++ row ∷ [] }

-- The guard allowed the request for the plan, on the store as it was when the executor was called,
-- less the row of the run that the call is for.
pub record IsGuarded (w : World) (plan : RemediationPlan) (e : Effect) : Type 0 where
  pub spec : ToolSpec
  pub policy : PolicyDb
  pub row : RunRow
  pub registered : get w.srv.tools e.request.tool.tool_id ≡ some spec
  pub allowed :
      (check w.srv.python w.srv.tools w.observe_only w.worker_now e.request.tool
        (some plan.approval_status)
        (some policy)).0.allowed
      ≡ true
  pub current :
      e.store
      ≡ with_run
          (check w.srv.python w.srv.tools w.observe_only w.worker_now e.request.tool
            (some plan.approval_status)
            (some policy)).1
          policy
          row
  pub limited : e.calls ≤ call_limit spec

policy_limit :
    (spec : ToolSpec)
    → (or_else (retry_policy_of spec) default_retry_policy).max_retries + 1 ≡ call_limit spec
unfolding retry_policy_of call_limit
policy_limit spec = elim (Bool-cases (str_eq spec.capability "mutation")) [
  | inl once ↦ rw once refl
  | inr often ↦ rw often refl
]

calls_limited :
    (spec : ToolSpec) (executors : ExecutorType → Option Executor) (observe_only : Bool)
    (settings : SettingsDb) (task_id : ℕ) (type : ExecutorType) (config : Fields)
    → (execute_action executors observe_only settings task_id type config
        (retry_policy_of spec)).calls
      ≤ call_limit spec
calls_limited spec executors observe_only settings task_id type config = rw (← policy_limit spec) (
    execute_action_limited executors observe_only settings task_id type config
      (retry_policy_of spec))

abbrev pub called : ExecutionRun → PlanRequest → ℕ → ExecutionDb → Effect
called run q n db = record {
  execution_run_id = run.id;
  request = q;
  calls = n;
  store = policy_view db;
}

-- The jobs and the idempotency records are those of before, and the calls that were added are `P`.
pub record FrameOf (P : Effect → Type 0) (old : ExecutionDb) (js : List ExecutionJob)
    (rs : List IdempotencyRecord) (es : List Effect) : Type 0 where
  pub jobs : js ≡ old.jobs
  pub records : rs ≡ old.records
  pub added : List Effect
  pub split : es ≡ old.effects ++ added
  pub each : All P added

-- Of the frame, what is said of the calls alone.
pub record CallsOf (P : Effect → Type 0) (old : ExecutionDb) (es : List Effect) : Type 0 where
  pub added : List Effect
  pub split : es ≡ old.effects ++ added
  pub each : All P added

abbrev pub Calls : (Effect → Type 0) → ExecutionDb → ExecutionDb → Type 0
Calls P old db = CallsOf P old db.effects

abbrev pub Frame : (Effect → Type 0) → ExecutionDb → ExecutionDb → Type 0
Frame P old db = FrameOf P old db.jobs db.records db.effects

module _ (P : Effect → Type 0) (old : ExecutionDb) where
  pub Calls-of_Frame : (db : ExecutionDb) → Frame P old db → Calls P old db
  Calls-of_Frame db f = record { added = f.added; split = f.split; each = f.each }

  -- A chain whose parts keep the frame, up to a last one after which `Q` holds.
  pub Frame-ends :
      (Q : ExecutionDb → Type 0)
      → ((db : ExecutionDb) → Frame P old db → Q db)
      → {A B : Type 0} (r : Result A × ExecutionDb) (f : A → Exec ExecutionDb B) → Frame P old r.1
      → ((a : A) (db : ExecutionDb) → Frame P old db → Q (f a db).1)
      → Q (continue f r).1
  Frame-ends Q keep (ok a, db) f i h = h a db i
  Frame-ends Q keep (err e, db) f i h = keep db i

  -- The next action of a chain keeps the frame if each of its values does.
  pub Frame-continue :
      {A B : Type 0} (r : Result A × ExecutionDb) (f : A → Exec ExecutionDb B)
      → Frame P old r.1
      → ((a : A) (db : ExecutionDb) → Frame P old db → Frame P old (f a db).1)
      → Frame P old (continue f r).1
  Frame-continue (ok a, db) f i h = h a db i
  Frame-continue (err e, db) f i h = i

  pub Frame-some_or :
      {A : Type 0} (o : Option A) (db : ExecutionDb) (e : Error)
      → Frame P old db
      → Frame P old (some_or o e db).1
  Frame-some_or none db e i = i
  Frame-some_or (some a) db e i = i

  -- A chain whose first part keeps `I`, which is no weaker than the frame.
  pub Frame-through :
      (I : ExecutionDb → Type 0)
      → ((db : ExecutionDb) → I db → Frame P old db)
      → {A B : Type 0} (r : Result A × ExecutionDb) (f : A → Exec ExecutionDb B) → I r.1
      → ((a : A) (db : ExecutionDb) → I db → Frame P old (f a db).1)
      → Frame P old (continue f r).1
  Frame-through I keep (ok a, db) f i h = h a db i
  Frame-through I keep (err e, db) f i h = keep db i

  module _ (w : World) where
    tried-Frame :
        (run : ExecutionRun) (q : PlanRequest) (t : Trial) (db : ExecutionDb)
        → P (called run q t.calls db)
        → Frame P old db
        → Frame P old (tried w run q t db).1
    unfolding tried
    tried-Frame run q t db p f =
        Frame-continue (some_or t.result _ _) _
          (Frame-some_or t.result _ _ (record {
            jobs = f.jobs;
            records = f.records;
            added = f.added ++ called run q t.calls db ∷ [];
            split =
                ap (λ l. l ++ called run q t.calls db ∷ []) f.split
                ∙ append_assoc old.effects f.added _;
            each = All-append P f.added _ f.each (p, tt);
          }))
          (λ a d i. i)

    typed-Frame :
        (run : ExecutionRun) (q : PlanRequest) (spec : ToolSpec) (type : Option ExecutorType)
        (db : ExecutionDb)
        → ((n : ℕ) → n ≤ call_limit spec → P (called run q n db))
        → Frame P old db
        → Frame P old (execute_typed w run q spec type db).1
    unfolding execute_typed
    typed-Frame run q spec none db p f = f
    typed-Frame run q spec (some type) db p f =
        let config = action_config (w.columns q.case_id) q spec in
        tried-Frame run q
          (execute_action w.executors w.observe_only db.settings run.id type config
            (retry_policy_of spec))
          db (p _ (calls_limited spec w.executors w.observe_only db.settings run.id type config)) f

    pub execute_allowed-Frame :
        (run : ExecutionRun) (q : PlanRequest) (spec : Option ToolSpec) (db : ExecutionDb)
        → ((s : ToolSpec) (n : ℕ) → spec ≡ some s → n ≤ call_limit s → P (called run q n db))
        → Frame P old db
        → Frame P old (execute_allowed_action w run q spec db).1
    unfolding execute_allowed_action notify
    execute_allowed-Frame run q none db p f = f
    execute_allowed-Frame run q (some spec) db p f =
        elim (Bool-cases (str_eq spec.capability "notification")) [
          | inl notice ↦ rw notice f
          | inr other ↦ rw other (
              typed-Frame run q spec (executor_type_of spec.executor_type) db
                (λ n le. p spec n refl le) f)
        ]
