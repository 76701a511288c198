-- ===== src/Policy/Sound.antt =====
-- When the guard allows an action.
use agenticops.Prelude.{
  ℕ, ◌≤◌, ◌<◌, String, ◌≡◌, ◌↔◌, inl, inr, Bool, true, false, Option, some, List, arith, str_eq,
  Option-cases,
}
use agenticops.Tools.Spec.{ToolSpec, ToolRequest}
use agenticops.Tools.Registry.{Python, get}
use agenticops.Policy.Guard.{
  PolicyDb, blocked_at, execution_gate, runtime_gate, approval_gate, needs_approval, plan_approved,
  params_valid, mode_allowed, effective_risk_of, autonomy_level, tripped_in, check,
}

-- What the guard asks of a tool that it lets run.
pub record IsPermitted (spec : ToolSpec) (risk : ℕ) (plan : Option String) (level : ℕ)
    (tripped : Bool) : Type 0 where
  pub approved : needs_approval spec risk level ≡ true → plan_approved plan ≡ true
  pub not_blocked_all : 0 < level
  pub not_observing :
      level ≤ 1
      → str_eq spec.capability "mutation" ≡ true
      → str_eq spec.executor_type "notification" ≡ true
  pub breaker_closed : tripped ≡ false
  pub executable : spec.executable ≡ true

pub IsPermitted-of_allowed :
    (spec : ToolSpec) (risk : ℕ) (plan : Option String) (level : ℕ) (tripped : Bool)
    → (approval_gate spec risk plan level tripped).allowed ≡ true
    → IsPermitted spec risk plan level tripped
unfolding approval_gate runtime_gate execution_gate blocked_at
IsPermitted-of_allowed spec risk plan level tripped h = ground arith

pub allowed_of_permitted :
    (spec : ToolSpec) (risk : ℕ) (plan : Option String) (level : ℕ) (tripped : Bool)
    → IsPermitted spec risk plan level tripped
    → (approval_gate spec risk plan level tripped).allowed ≡ true
unfolding approval_gate runtime_gate execution_gate blocked_at
allowed_of_permitted spec risk plan level tripped h = ground arith

module _ (py : Python) (tools : List ToolSpec) (observe_only : Bool) (now : ℕ) where
  -- Everything that must hold for a request to be allowed.
  pub record IsAllowable (q : ToolRequest) (plan : Option String) (db : Option PolicyDb)
      : Type 0 where
    pub spec : ToolSpec
    pub registered : get tools q.tool_id ≡ some spec
    pub valid : params_valid spec q.params ≡ true
    pub mode : mode_allowed spec q.mode ≡ true
    pub permitted :
        let (level, db') = autonomy_level observe_only db in
        IsPermitted spec (effective_risk_of py spec q) plan level (tripped_in py now db' q)

  IsAllowable-of_allowed :
      (q : ToolRequest) (plan : Option String) (db : Option PolicyDb)
      → (check py tools observe_only now q plan db).0.allowed ≡ true
      → IsAllowable q plan db
  unfolding check blocked_at
  IsAllowable-of_allowed q plan db h = elim (Option-cases (get tools q.tool_id)) [
    | inl missing ↦ absurd (ground arith)
    | inr (spec, found) ↦
        let (level, db') = autonomy_level observe_only db in
        record {
          spec = spec;
          registered = found;
          valid = ground arith;
          mode = ground arith;
          permitted =
              IsPermitted-of_allowed spec (effective_risk_of py spec q) plan level
                (tripped_in py now db' q) (ground arith);
        }
  ]

  allowed_of_allowable :
      (q : ToolRequest) (plan : Option String) (db : Option PolicyDb)
      → IsAllowable q plan db
      → (check py tools observe_only now q plan db).0.allowed ≡ true
  unfolding check blocked_at
  allowed_of_allowable q plan db h =
      let (level, db') = autonomy_level observe_only db in
      ground (
        arith,
        h.registered,
        h.valid,
        h.mode,
        allowed_of_permitted h.spec (effective_risk_of py h.spec q) plan level
            (tripped_in py now db' q) h.permitted,
      )

  -- The guard allows a request exactly when its tool is registered, its parameters and mode are
  -- valid, an approval that is called for is there, the autonomy level permits the action, the
  -- circuit breaker is closed and the tool is executable.
  pub check_allowed_iff :
      (q : ToolRequest) (plan : Option String) (db : Option PolicyDb)
      → ((check py tools observe_only now q plan db).0.allowed ≡ true) ↔ IsAllowable q plan db
  check_allowed_iff q plan db = (IsAllowable-of_allowed q plan db, allowed_of_allowable q plan db)
