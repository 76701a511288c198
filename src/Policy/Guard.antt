-- ===== src/Policy/Guard.antt =====
-- `PolicyGuard.check`: the gates that a request passes in turn. The details that a gate records for
-- the audit are left out; the gates, their order, their reasons and the decision are here.
use agenticops.Prelude.{
  ℕ, zero, suc, ◌+◌, ◌*◌, ◌-◌, String, Bool, true, false, not, ◌&&◌, ◌||◌, Option, none, some, List,
  [], ◌∷◌, ◌++◌, min, max, ltb, leb, any, length, where_all, str_eq, str_mem, lower, contains_text,
  format, if◌then◌else◌,
}
use agenticops.Prelude.Json.{Json, Fields, get_or_null, or_value, truth}
use agenticops.Prelude.Exec.{Result, ok, err}
use agenticops.Tools.Spec.{ToolSpec, ToolRequest}
use agenticops.Tools.Registry.{
  Python, get, str_of, validate_params, find_blocked_patterns, commands_match_allowlist,
}
use agenticops.Policy.Settings.{SettingsDb, get_autonomy_level}

-- `GateResult` without its detail, and `PolicyDecision` without its audit record.
pub record GateResult : Type 0 where
  pub gate : String
  pub passed : Bool
  pub reason : String

pub record PolicyDecision : Type 0 where
  pub allowed : Bool
  pub effective_risk : ℕ
  pub gate_results : List GateResult
  pub required_approval : Bool
  pub blocked_reason : Option String

pub data ExecutionRunStatus : Type 0 where
  pending running succeeded failed verifying verified rolled_back : ExecutionRunStatus

-- What the circuit breaker reads of `ExecutionRun`.
pub record RunRow : Type 0 where
  pub status : ExecutionRunStatus
  pub started_at : ℕ
  pub target_id : Option String

pub record PolicyDb : Type 0 where
  pub settings : SettingsDb
  pub runs : List RunRow

-- `APPROVAL_THRESHOLD_BY_LEVEL.get(level, 2)`
unfoldable pub approval_threshold : ℕ → ℕ
approval_threshold zero = 1
approval_threshold (suc zero) = 1
approval_threshold (suc (suc zero)) = 2
approval_threshold (suc (suc (suc zero))) = 3
approval_threshold (suc (suc (suc (suc zero)))) = 4
approval_threshold (suc (suc (suc (suc (suc zero))))) = 4
approval_threshold _ = 2

-- `CORE_ROLE_TOKENS`
abbrev core_role_tokens : List String
core_role_tokens = "core" ∷ "spine" ∷ "border" ∷ "gateway" ∷ "核心" ∷ "出口" ∷ "网关" ∷ []

join_spaced : List String → String
join_spaced [] = ""
join_spaced (s ∷ []) = s
join_spaced (s ∷ t ∷ r) = format (s ∷ " " ∷ join_spaced (t ∷ r) ∷ [])

text_of : Python → Json → String
unfolding str_of truth
text_of py v = if truth v then str_of py v else ""

target_texts : Python → Fields → List String → List String
unfolding text_of get_or_null
target_texts py target [] = []
target_texts py target (k ∷ ks) = text_of py (get_or_null k target) ∷ target_texts py target ks

unfoldable pub is_core_target : Python → Fields → Bool
unfolding join_spaced target_texts lower contains_text any
is_core_target py target =
    let haystack = lower (
      join_spaced
        (target_texts py target ("role" ∷ "device_role" ∷ "device_name" ∷ "host" ∷ "tags" ∷ []))) in
    any (λ token. contains_text token haystack) core_role_tokens

raise_to : Bool → ℕ → ℕ → ℕ
raise_to true floor risk = max risk floor
raise_to false floor risk = risk

abbrev no_text : List String → Bool
no_text [] = true
no_text (_ ∷ _) = false

-- The base risk, raised to 3 by a blocked pattern and to 2 outside the allowlist; one more on a
-- core device unless it is 0, and never past 4 then.
unfoldable pub effective_risk_of : Python → ToolSpec → ToolRequest → ℕ
unfolding raise_to is_core_target find_blocked_patterns commands_match_allowlist
effective_risk_of py spec q =
    let blocked =
      raise_to (not (no_text (find_blocked_patterns py spec q.params))) 3 spec.risk_level in
    let risk = raise_to (not (commands_match_allowlist py spec q.params)) 2 blocked in
    if is_core_target py q.target && ltb 0 risk then min 4 (risk + 1) else risk

-- `status in (SUCCEEDED, VERIFIED, FAILED)`
unfoldable pub counts_as_run : ExecutionRunStatus → Bool
counts_as_run succeeded = true
counts_as_run verified = true
counts_as_run failed = true
counts_as_run _ = false

unfoldable pub on_target : Option String → String → Bool
on_target none target = false
on_target (some t) target = str_eq t target

-- The window of 30 minutes and the limit of 3 runs are those of pipeline_thresholds.py.
unfoldable pub recent_run : ℕ → String → RunRow → Bool
unfolding counts_as_run on_target
recent_run now target r =
    leb (now - 30 * 60) r.started_at && (counts_as_run r.status && on_target r.target_id target)

target_value : Fields → Json
unfolding or_value get_or_null
target_value target =
    or_value (or_value (get_or_null "netbox_device_id" target) (get_or_null "device_ip" target))
      (get_or_null "host" target)

unfoldable pub circuit_breaker_tripped : Python → ℕ → PolicyDb → ToolRequest → Bool
unfolding recent_run target_value str_of truth
circuit_breaker_tripped py now db q =
    let target = target_value q.target in
    if truth target
    then leb 3 (length (where_all (recent_run now (str_of py target)) db.runs))
    else false

unfoldable pub passed_gate : String → String → GateResult
passed_gate gate reason = record { gate = gate; passed = true; reason = reason }

unfoldable pub failed_gate : String → String → GateResult
failed_gate gate reason = record { gate = gate; passed = false; reason = reason }

-- A decision to block at a gate, after the gates that were passed.
unfoldable pub blocked_at : String → String → List GateResult → ℕ → Bool → PolicyDecision
unfolding failed_gate
blocked_at gate reason gates risk required = record {
  allowed = false;
  effective_risk = risk;
  gate_results = gates ++ failed_gate gate reason ∷ [];
  required_approval = required;
  blocked_reason = some reason;
}

-- The gate of the tool itself, and the decision to allow.
unfoldable pub execution_gate : ToolSpec → List GateResult → ℕ → Bool → PolicyDecision
unfolding passed_gate
execution_gate spec gates risk required =
    if spec.executable
    then record {
      allowed = true;
      effective_risk = risk;
      gate_results = gates ++ passed_gate "execution" "executable" ∷ [];
      required_approval = required;
      blocked_reason = none;
    }
    else blocked_at "execution" "tool_not_executable" gates risk required

-- The autonomy floor and the circuit breaker.
unfoldable pub runtime_gate : ToolSpec → ℕ → Bool → List GateResult → ℕ → Bool → PolicyDecision
runtime_gate spec level tripped gates risk required =
    if leb level 0
    then blocked_at "runtime" "autonomy_block_all" gates risk required
    else if leb level 1
        && (str_eq spec.capability "mutation" && not (str_eq spec.executor_type "notification"))
    then blocked_at "runtime" "observe_only_blocked" gates risk required
    else if tripped
    then blocked_at "runtime" "circuit_breaker" gates risk required
    else execution_gate spec (gates ++ passed_gate "runtime" "ok" ∷ []) risk required

-- `plan and str(plan.approval_status).lower() == "approved"`
unfoldable pub plan_approved : Option String → Bool
plan_approved none = false
plan_approved (some status) = str_eq (lower status) "approved"

unfoldable pub needs_approval : ToolSpec → ℕ → ℕ → Bool
unfolding approval_threshold
needs_approval spec risk level = spec.requires_approval || leb (approval_threshold level) risk

-- The approval gate, after the schema, rules and risk gates have been passed.
unfoldable pub approval_gate : ToolSpec → ℕ → Option String → ℕ → Bool → PolicyDecision
unfolding passed_gate
approval_gate spec risk plan level tripped =
    let gates =
      passed_gate "schema" "ok"
      ∷ passed_gate "rules" "rules_captured"
      ∷ passed_gate "risk" "risk_calculated"
      ∷ [] in
    let required = needs_approval spec risk level in
    if required && not (plan_approved plan)
    then blocked_at "approval" "approval_required" gates risk true
    else runtime_gate spec level tripped
        (gates ++ passed_gate "approval" (if required then "approved" else "not_required") ∷ [])
        risk required

-- `request.mode in spec.modes if spec.modes else True`
unfoldable pub mode_allowed : ToolSpec → String → Bool
mode_allowed spec mode = no_text spec.modes || str_mem mode spec.modes

unfoldable pub params_valid : ToolSpec → Fields → Bool
unfolding validate_params
params_valid spec params = no_text (validate_params spec params)

level_or : Result ℕ → ℕ → ℕ
level_or (ok level) fallback = level
level_or (err _) fallback = fallback

-- `_autonomy_level`: the stored level, which reading may create, or the default without a database.
unfoldable pub autonomy_level : Bool → Option PolicyDb → ℕ × Option PolicyDb
unfolding level_or
autonomy_level observe_only none = (if observe_only then 1 else 2, none)
autonomy_level observe_only (some db) =
    let r = get_autonomy_level observe_only db.settings in
    (level_or r.0 (if observe_only then 1 else 2), some (record db { settings = r.1 }))

unfoldable pub tripped_in : Python → ℕ → Option PolicyDb → ToolRequest → Bool
unfolding circuit_breaker_tripped
tripped_in py now none q = false
tripped_in py now (some db) q = circuit_breaker_tripped py now db q

module _ (py : Python) (tools : List ToolSpec) (observe_only : Bool) (now : ℕ) where
  -- The checks of a registered tool.
  unfoldable pub check_spec :
      ToolSpec → ToolRequest → Option String → Option PolicyDb → PolicyDecision × Option PolicyDb
  unfolding approval_gate effective_risk_of mode_allowed params_valid autonomy_level tripped_in
  check_spec spec q plan db =
      if not (params_valid spec q.params)
      then (blocked_at "schema" "invalid_params" [] spec.risk_level false, db)
      else if not (mode_allowed spec q.mode)
      then (blocked_at "schema" "mode_not_allowed" [] spec.risk_level false, db)
      else let (level, db') = autonomy_level observe_only db in
        (approval_gate spec (effective_risk_of py spec q) plan level (tripped_in py now db' q), db')

  unfoldable pub check_found :
      Option ToolSpec
      → ToolRequest
      → Option String
      → Option PolicyDb
      → PolicyDecision × Option PolicyDb
  unfolding check_spec
  check_found none q plan db = (blocked_at "schema" "unregistered_tool" [] 4 false, db)
  check_found (some spec) q plan db = check_spec spec q plan db

  -- `PolicyGuard.check(request, plan=plan, db=db)`; the plan enters by its approval status.
  unfoldable pub check :
      ToolRequest → Option String → Option PolicyDb → PolicyDecision × Option PolicyDb
  unfolding check_found get
  check q plan db = check_found (get tools q.tool_id) q plan db
