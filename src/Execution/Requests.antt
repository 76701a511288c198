-- ===== src/Execution/Requests.antt =====
-- From a recommended action to the request that the guard checks: `_resolve_tool_id`,
-- `_action_params` and `_build_tool_request`.
use agenticops.Prelude.{
  ℕ, String, ◌||◌, Option, none, some, List, [], ◌∷◌, str_eq, str_mem, lower, is_some,
  if◌then◌else◌,
}
use agenticops.Prelude.Json.{
  Json, Fields, num, text, arr, obj, nil, end, field, get_field, get_or_null, or_value, truth,
  put_field,
}
use agenticops.Tools.Spec.{ToolSpec, ToolRequest}
use agenticops.Tools.Registry.{Python, get, str_of}

-- `ToolRequest` with what the execution service puts beside it.
pub record PlanRequest : Type 0 where
  pub tool : ToolRequest
  pub action : Fields
  pub requested_by : String
  pub case_id : ℕ
  pub plan_id : ℕ

-- The columns of `CaseRecord` that the requests read.
pub record CaseColumns : Type 0 where
  pub site_id : Json
  pub netbox_device_id : Json
  pub device_ip : Json
  pub host : Json
  pub case_metadata : Fields

-- `str(action.get(key) or "")`
unfoldable pub text_in : Python → String → Fields → String
unfolding str_of truth get_or_null
text_in py key action =
    if truth (get_or_null key action) then str_of py (get_or_null key action) else ""

unfoldable pub tool_of_type : String → String → String
tool_of_type action_type mode =
    if str_mem action_type ("notification" ∷ "notify" ∷ "dingtalk" ∷ []) || str_eq mode "notify"
    then "notify.dingtalk"
    else if str_mem action_type ("api" ∷ "api_request" ∷ []) || str_eq mode "api"
    then "api.request"
    else if str_mem action_type ("script" ∷ "script_run" ∷ []) || str_eq mode "script"
    then "script.run"
    else if str_mem action_type ("ssh_show" ∷ "ssh_show_command" ∷ [])
    then "ssh.show_command"
    else if str_mem action_type ("ssh_config" ∷ "ssh_config_change" ∷ [])
    then "ssh.config_change"
    else "manual.review"

unfoldable pub resolve_tool_id : Python → Fields → String
unfolding tool_of_type text_in lower str_of truth get_or_null
resolve_tool_id py action =
    if truth (get_or_null "tool_id" action)
    then str_of py (get_or_null "tool_id" action)
    else tool_of_type (lower (text_in py "action_type" action)) (lower (text_in py "mode" action))

-- `params.setdefault(key, value)`
unfoldable pub set_default : String → Json → Fields → Fields
unfolding get_field put_field
set_default key value params =
    if is_some (get_field key params) then params else put_field key value params

abbrev param_keys : List String
param_keys =
    "url" ∷ "method" ∷ "headers" ∷ "body" ∷ "message" ∷ "title" ∷ "notification_type"
    ∷ "script_path" ∷ "script_args" ∷ "commands" ∷ "command" ∷ "credential_id" ∷ "netbox_device_id"
    ∷ []

unfoldable pub copied_key : String → Option Json → Fields → Fields
unfolding set_default
copied_key key none params = params
copied_key key (some v) params = set_default key v params

unfoldable pub copied_keys : List String → Fields → Fields → Fields
unfolding copied_key get_field
copied_keys [] action params = params
copied_keys (key ∷ ks) action params =
    copied_keys ks action (copied_key key (get_field key action) params)

-- `dict(action.get("params") or {})`; what is neither empty nor a dict raises.
unfoldable pub own_params : Json → Option Fields
unfolding truth
own_params (obj fs) = some fs
own_params v = if truth v then none else some end

unfoldable pub with_defaults : Python → String → Fields → Fields → Fields
unfolding set_default or_value get_or_null
with_defaults py tool_id action params =
    if str_eq tool_id "notify.dingtalk"
    then set_default "message"
        (or_value (or_value (get_or_null "reason" action) (get_or_null "title" action))
          (text "AgenticOps notification"))
        (set_default "notification_type" (text "dingtalk") params)
    else params

unfoldable pub filled_params : Python → String → Fields → Option Fields → Option Fields
unfolding with_defaults copied_keys
filled_params py tool_id action none = none
filled_params py tool_id action (some params) =
    some (with_defaults py tool_id action (copied_keys param_keys action params))

unfoldable pub action_params : Python → Fields → String → Option Fields
unfolding filled_params own_params get_or_null
action_params py action tool_id =
    filled_params py tool_id action (own_params (get_or_null "params" action))

unfoldable pub case_target : ℕ → CaseColumns → Fields
unfolding get_or_null or_value
case_target case_id c = field "case_id" (num case_id) (
    field "site_id" c.site_id (
      field "netbox_device_id" c.netbox_device_id (
        field "device_ip" c.device_ip (
          field "host" c.host (
            field "role" (get_or_null "device_role" c.case_metadata)
              (field "tags" (or_value (get_or_null "tags" c.case_metadata) (arr nil)) end))))))

-- "observe" for a tool that reads or stands for work by hand.
unfoldable pub request_mode : Option ToolSpec → String
request_mode none = "execute"
request_mode (some spec) =
    if str_mem spec.capability ("read_only" ∷ "manual" ∷ []) then "observe" else "execute"

unfoldable pub request_with :
    List ToolSpec
    → CaseColumns
    → ℕ
    → ℕ
    → String
    → Fields
    → String
    → Option Fields
    → Option PlanRequest
unfolding case_target request_mode get
request_with tools columns case_id plan_id triggered_by action tool_id none = none
request_with tools columns case_id plan_id triggered_by action tool_id (some params) =
    some (record {
      tool = record {
        tool_id = tool_id;
        params = params;
        target = case_target case_id columns;
        mode = request_mode (get tools tool_id);
      };
      action = action;
      requested_by = triggered_by;
      case_id = case_id;
      plan_id = plan_id;
    })

-- Nothing if building the request raises: an action or its parameters are no dict.
unfoldable pub build_tool_request :
    Python → List ToolSpec → CaseColumns → ℕ → ℕ → String → Json → Option PlanRequest
unfolding request_with action_params resolve_tool_id
build_tool_request py tools columns case_id plan_id triggered_by (obj action) =
    let tool_id = resolve_tool_id py action in
    request_with tools columns case_id plan_id triggered_by action tool_id
      (action_params py action tool_id)
build_tool_request py tools columns case_id plan_id triggered_by _ = none
