-- ===== src/Policy/Gates.antt =====
-- Proofs about the gates that `PolicyGuard.check` records.
use agenticops.Prelude.{
  ℕ, String, ◌≡◌, refl, Bool, true, false, not, Option, List, [], ◌∷◌, ◌++◌, arith, all, is_some,
  inl, inr, Option-cases, Bool-cases, if◌then◌else◌,
}
use agenticops.Tools.Spec.{ToolSpec, ToolRequest}
use agenticops.Tools.Registry.{Python, get}
use agenticops.Policy.Guard.{
  GateResult, PolicyDecision, PolicyDb, passed_gate, needs_approval, effective_risk_of,
  autonomy_level, tripped_in, blocked_at, execution_gate, runtime_gate, approval_gate, check,
}

-- An allowed request has passed every gate and has no reason against it; a blocked one has failed a
-- gate and has a reason.
pub record IsConsistent (d : PolicyDecision) : Type 0 where
  pub gates : all (λ g. g.passed) d.gate_results ≡ d.allowed
  pub reason : is_some d.blocked_reason ≡ not d.allowed

all-failed :
    (gs : List GateResult) (g : GateResult)
    → g.passed ≡ false
    → all (λ x. x.passed) (gs ++ g ∷ []) ≡ false
unfolding all
all-failed [] g h = ground arith
all-failed (x ∷ xs) g h = ground (arith, all-failed xs g h)

all-passed :
    (gs : List GateResult) (g : GateResult)
    → all (λ x. x.passed) gs ≡ true
    → g.passed ≡ true
    → all (λ x. x.passed) (gs ++ g ∷ []) ≡ true
unfolding all
all-passed [] g h k = ground arith
all-passed (x ∷ xs) g h k = ground (arith, all-passed xs g)

blocked_at-IsConsistent :
    (gate reason : String) (gs : List GateResult) (risk : ℕ) (required : Bool)
    → IsConsistent (blocked_at gate reason gs risk required)
unfolding blocked_at
blocked_at-IsConsistent gate reason gs risk required = record {
  gates = all-failed gs _ refl;
  reason = refl;
}

execution_gate-IsConsistent :
    (spec : ToolSpec) (gs : List GateResult) (risk : ℕ) (required : Bool)
    → all (λ g. g.passed) gs ≡ true
    → IsConsistent (execution_gate spec gs risk required)
unfolding execution_gate
execution_gate-IsConsistent spec gs risk required h = elim (Bool-cases spec.executable) [
  | inl run ↦ rw run (record { gates = all-passed gs _ h refl; reason = refl })
  | inr not_run ↦
      rw not_run (blocked_at-IsConsistent "execution" "tool_not_executable" gs risk required)
]

runtime_gate-IsConsistent :
    (spec : ToolSpec) (level : ℕ) (tripped : Bool) (gs : List GateResult) (risk : ℕ)
    (required : Bool)
    → all (λ g. g.passed) gs ≡ true
    → IsConsistent (runtime_gate spec level tripped gs risk required)
unfolding runtime_gate
runtime_gate-IsConsistent spec level tripped gs risk required h = ground (
  arith,
  blocked_at-IsConsistent "runtime" "autonomy_block_all" gs risk required,
  blocked_at-IsConsistent "runtime" "observe_only_blocked" gs risk required,
  blocked_at-IsConsistent "runtime" "circuit_breaker" gs risk required,
  execution_gate-IsConsistent spec (gs ++ passed_gate "runtime" "ok" ∷ []) risk required
      (all-passed gs (passed_gate "runtime" "ok") h (unfold passed_gate in refl)),
)

approval_gate-IsConsistent :
    (spec : ToolSpec) (risk : ℕ) (plan : Option String) (level : ℕ) (tripped : Bool)
    → IsConsistent (approval_gate spec risk plan level tripped)
unfolding approval_gate
approval_gate-IsConsistent spec risk plan level tripped =
    let required = needs_approval spec risk level in
    let gates =
      passed_gate "schema" "ok"
      ∷ passed_gate "rules" "rules_captured"
      ∷ passed_gate "risk" "risk_calculated"
      ∷ [] in
    let approved = passed_gate "approval" (if required then "approved" else "not_required") in
    ground (
      arith,
      blocked_at-IsConsistent "approval" "approval_required" gates risk true,
      runtime_gate-IsConsistent spec level tripped (gates ++ approved ∷ []) risk required
          (unfold passed_gate all in refl),
    )

-- The guard allows a request exactly when every gate it records was passed, and gives a reason
-- exactly when it blocks.
pub check-IsConsistent :
    (py : Python) (tools : List ToolSpec) (observe_only : Bool) (now : ℕ) (q : ToolRequest)
    (plan : Option String) (db : Option PolicyDb)
    → IsConsistent (check py tools observe_only now q plan db).0
unfolding check
check-IsConsistent py tools observe_only now q plan db = elim (Option-cases (get tools q.tool_id)) [
  | inl missing ↦ rw missing (blocked_at-IsConsistent "schema" "unregistered_tool" [] 4 false)
  | inr (spec, found) ↦
      let (level, db') = autonomy_level observe_only db in
      ground (
        arith,
        blocked_at-IsConsistent "schema" "invalid_params" [] spec.risk_level false,
        blocked_at-IsConsistent "schema" "mode_not_allowed" [] spec.risk_level false,
        approval_gate-IsConsistent spec (effective_risk_of py spec q) plan level
            (tripped_in py now db' q),
      )
]
