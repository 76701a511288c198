-- ===== src/Tests/PolicyTests.antt =====
-- A read-only command and a restart, in front of the guard.
use agenticops.Prelude.{
  ℕ, ◌≤◌, ◌≡◌, refl, arith, ◌↔◌, Bool, true, false, Option, none, some, List, [], ◌∷◌, String,
}
use agenticops.Prelude.Exec.{ok}
use agenticops.Prelude.Json.{text, end, field}
use agenticops.Tools.Spec.{ToolSpec, ToolRequest}
use agenticops.Tools.Registry.{Python}
use agenticops.Policy.Settings.{SettingsDb, get_autonomy_level, set_autonomy_level, mode_of_level}
use agenticops.Policy.Guard.{
  PolicyDb, check, approval_gate, plan_approved, needs_approval, runtime_gate, execution_gate,
}
use agenticops.Policy.Sound.{IsAllowable, check_allowed_iff}
use agenticops.Policy.Gates.{IsConsistent, check-IsConsistent}
use agenticops.Policy.Levels.{allowed_mono, destructive_needs_plan}
use agenticops.Policy.RoundTrip.{set-get_level}

abbrev python : Python
python = record { show = λ v. ""; search = λ pattern s. false }

abbrev tool : String → String → ℕ → ToolSpec
tool id capability risk = record {
  tool_id = id;
  name = id;
  category = "device";
  capability = capability;
  executor_type = "ssh";
  risk_level = risk;
  modes = [];
  executable = true;
  allowed_commands = [];
  blocked_patterns = [];
  requires_approval = false;
  timeout = 30;
  param_schema = end;
  agent_selectable = true;
  read_only = true;
  target_scope = [];
  vendor_support = [];
  output_parser = none;
  evidence_mapper = none;
}

abbrev tools : List ToolSpec
tools = tool "ssh.show" "diagnostic" 0 ∷ tool "ssh.restart" "mutation" 4 ∷ []

abbrev request : String → ToolRequest
request id = record {
  tool_id = id;
  params = end;
  target = field "host" (text "10.0.0.1") end;
  mode = "execute";
}

abbrev policy_db : PolicyDb
policy_db = record { settings = record { row = none }; runs = [] }

check_allowed_iff_example :
    ((check python tools false 9000 (request "ssh.show") none (some policy_db)).0.allowed ≡ true)
    ↔ IsAllowable python tools false 9000 (request "ssh.show") none (some policy_db)
check_allowed_iff_example =
    check_allowed_iff python tools false 9000 (request "ssh.show") none (some policy_db)

check-IsConsistent_example :
    IsConsistent (check python tools false 9000 (request "ssh.restart") none (some policy_db)).0
check-IsConsistent_example =
    check-IsConsistent python tools false 9000 (request "ssh.restart") none (some policy_db)

show_allowed : (approval_gate (tool "ssh.show" "diagnostic" 0) 1 none 2 false).allowed ≡ true
unfolding approval_gate needs_approval runtime_gate execution_gate
show_allowed = refl

allowed_mono_example :
    (approval_gate (tool "ssh.show" "diagnostic" 0) 1 none 4 false).allowed ≡ true
allowed_mono_example =
    allowed_mono (tool "ssh.show" "diagnostic" 0) 1 none 2 4 false (omega arith) (omega arith)
      show_allowed

restart_allowed :
    (approval_gate (tool "ssh.restart" "mutation" 4) 4 (some "Approved") 3 false).allowed ≡ true
unfolding approval_gate needs_approval plan_approved agenticops.Prelude.lower runtime_gate
    execution_gate
restart_allowed = refl

destructive_needs_plan_example : plan_approved (some "Approved") ≡ true
destructive_needs_plan_example =
    destructive_needs_plan (tool "ssh.restart" "mutation" 4) 4 (some "Approved") 3 false
      (omega arith) restart_allowed

abbrev empty_settings : SettingsDb
empty_settings = record { row = none }

set-get_level_example :
    ((get_autonomy_level true (set_autonomy_level false 3 empty_settings).1).0 ≡ ok 3)
    × ((set_autonomy_level false 3 empty_settings).0
        ≡ ok (record { mode = mode_of_level 3; autonomy_level = 3; is_observe_only = false }))
set-get_level_example = set-get_level false true 3 empty_settings (omega arith)
