-- ===== src/Policy/Levels.antt =====
-- The autonomy ladder and the risk.
use agenticops.Prelude.{ℕ, zero, suc, ◌≤◌, String, ◌≡◌, refl, Bool, true, Option, arith, min, max}
use agenticops.Tools.Spec.{ToolSpec, ToolRequest}
use agenticops.Tools.Registry.{Python}
use agenticops.Policy.Guard.{
  approval_threshold, needs_approval, plan_approved, effective_risk_of, approval_gate,
}
use agenticops.Policy.Sound.{IsPermitted-of_allowed, allowed_of_permitted}

threshold_value : (b : ℕ) → b ≤ 5 → approval_threshold b ≡ max 1 (min 4 b)
unfolding approval_threshold
threshold_value zero h = refl
threshold_value (suc zero) h = refl
threshold_value (suc (suc zero)) h = refl
threshold_value (suc (suc (suc zero))) h = refl
threshold_value (suc (suc (suc (suc zero)))) h = refl
threshold_value (suc (suc (suc (suc (suc zero))))) h = refl
threshold_value (suc (suc (suc (suc (suc (suc b)))))) h = absurd (omega (arith, h))

threshold_most : (b : ℕ) → approval_threshold b ≤ 4
unfolding approval_threshold
threshold_most zero = ground arith
threshold_most (suc zero) = ground arith
threshold_most (suc (suc zero)) = ground arith
threshold_most (suc (suc (suc zero))) = ground arith
threshold_most (suc (suc (suc (suc zero)))) = ground arith
threshold_most (suc (suc (suc (suc (suc zero))))) = ground arith
threshold_most (suc (suc (suc (suc (suc (suc b)))))) = ground arith

-- From level 1 to level 5 the threshold of approval only rises.
threshold_mono : (a b : ℕ) → a ≤ b → b ≤ 5 → approval_threshold a ≤ approval_threshold b
threshold_mono a b h k = omega (arith, threshold_value a, threshold_value b, h, k)

-- For the same tool, risk, plan and state of the circuit breaker, what an autonomy level allows,
-- each higher level up to 5 allows.
pub allowed_mono :
    (spec : ToolSpec) (risk : ℕ) (plan : Option String) (level level' : ℕ) (tripped : Bool)
    → level ≤ level'
    → level' ≤ 5
    → (approval_gate spec risk plan level tripped).allowed ≡ true
    → (approval_gate spec risk plan level' tripped).allowed ≡ true
unfolding needs_approval
allowed_mono spec risk plan level level' tripped h k a =
    let p = IsPermitted-of_allowed spec risk plan level tripped a in
    allowed_of_permitted spec risk plan level' tripped (record {
      approved = ground (arith, threshold_mono level level', p.approved);
      not_blocked_all = omega (arith, p.not_blocked_all);
      not_observing = ground (arith, p.not_observing);
      breaker_closed = p.breaker_closed;
      executable = p.executable;
    })

-- For a tool whose base risk is at most 4, the effective risk is at least the base risk and at
-- most 4.
pub effective_risk_bounds :
    (py : Python) (spec : ToolSpec) (q : ToolRequest)
    → spec.risk_level ≤ 4
    → (spec.risk_level ≤ effective_risk_of py spec q) × (effective_risk_of py spec q ≤ 4)
unfolding effective_risk_of
effective_risk_bounds py spec q h = ground arith

-- What has an effective risk of 4 or more is allowed at no autonomy level without an approved
-- plan.
pub destructive_needs_plan :
    (spec : ToolSpec) (risk : ℕ) (plan : Option String) (level : ℕ) (tripped : Bool)
    → 4 ≤ risk
    → (approval_gate spec risk plan level tripped).allowed ≡ true
    → plan_approved plan ≡ true
unfolding needs_approval approval_threshold
destructive_needs_plan spec risk plan level tripped h a =
    let p = IsPermitted-of_allowed spec risk plan level tripped a in
    p.approved (ground (arith, threshold_most level))
