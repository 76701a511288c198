-- ===== src/Tools/Registry.antt =====
-- `ToolRegistry`: look-up, and the checks that the policy guard and the agents make.
use agenticops.Prelude.{
  String, Bool, true, false, not, ◌&&◌, ◌||◌, Option, none, some, List, [], ◌∷◌, ◌++◌, map, find?,
  where_all, any, all, str_eq, str_mem, lower, strip, prefixed, format, truthy, if◌then◌else◌,
}
use agenticops.Prelude.Json.{
  Json, Fields, null, text, arr, obj, nil, get_or_null, truth, items, keys,
}
use agenticops.Tools.Spec.{ToolSpec}

-- Python's `str` of a JSON value that is no text, and `re.search`, for which the model has
-- parameters.
pub record Python : Type 0 where
  pub show : Json → String
  pub search : String → String → Bool

unfoldable pub has_tool_id : String → ToolSpec → Bool
has_tool_id id spec = str_eq spec.tool_id id

-- `self._tools.get(tool_id)`
unfoldable pub get : List ToolSpec → String → Option ToolSpec
unfolding has_tool_id
get tools id = find? (has_tool_id id) tools

unfoldable pub agent_tools : List ToolSpec → List ToolSpec
agent_tools = where_all (λ spec. spec.agent_selectable && spec.read_only)

-- `value in (None, "", [])`
unfoldable pub is_blank : Json → Bool
is_blank null = true
is_blank (text s) = str_eq s ""
is_blank (arr nil) = true
is_blank _ = false

texts : List Json → List String
texts [] = []
texts (text s ∷ vs) = s ∷ texts vs
texts (_ ∷ vs) = texts vs

-- `spec.param_schema.get("required", [])`, a list of names
unfoldable pub required : ToolSpec → List String
unfolding texts get_or_null items
required spec = elim (get_or_null "required" spec.param_schema) [
  | arr vs ↦ texts (items vs)
  | _ ↦ []
]

unfoldable pub missing : ToolSpec → Fields → List String
unfolding required is_blank get_or_null
missing spec params = where_all (λ name. is_blank (get_or_null name params)) (required spec)

-- The errors of `validate_params`; the parameters are valid if there are none.
unfoldable pub validate_params : ToolSpec → Fields → List String
unfolding missing
validate_params spec params =
    map (λ name. format ("missing_required:" ∷ name ∷ [])) (missing spec params)

module _ (py : Python) where
  -- `str(value)`
  unfoldable pub str_of : Json → String
  str_of (text s) = s
  str_of v = py.show v

  -- `[str(item) for item in values if item is not None]`
  unfoldable pub shown : List Json → List String
  unfolding str_of
  shown [] = []
  shown (null ∷ vs) = shown vs
  shown (v ∷ vs) = str_of v ∷ shown vs

  command_value : Json → List String
  unfolding str_of truth
  command_value v = if truth v then str_of v ∷ [] else []

  commands_value : Json → List String
  unfolding shown items keys
  commands_value (text s) = s ∷ []
  commands_value (arr vs) = shown (items vs)
  commands_value (obj fs) = shown (keys fs)
  commands_value _ = []

  args_value : Json → List String
  unfolding shown items
  args_value (arr vs) = shown (items vs)
  args_value _ = []

  unfoldable pub command_values : Fields → List String
  unfolding command_value commands_value args_value get_or_null
  command_values params =
      command_value (get_or_null "command" params)
      ++ (commands_value (get_or_null "commands" params)
          ++ args_value (get_or_null "script_args" params))

  unfoldable pub find_blocked_patterns : ToolSpec → Fields → List String
  unfolding command_values
  find_blocked_patterns spec params =
      where_all (λ pattern. any (py.search pattern) (command_values params)) spec.blocked_patterns

  allowed_command : ToolSpec → String → Bool
  allowed_command spec command = prefixed (lower (strip command)) (map lower spec.allowed_commands)

  unfoldable pub commands_match_allowlist : ToolSpec → Fields → Bool
  unfolding command_values allowed_command
  commands_match_allowlist spec params = elim spec.allowed_commands [
    | [] ↦ true
    | _ ∷ _ ↦ all (allowed_command spec) (command_values params)
  ]

-- `value not in (None, "")`
unfoldable pub is_given : Json → Bool
is_given null = false
is_given (text s) = not (str_eq s "")
is_given _ = true

in_scope : ToolSpec → Fields → Bool
unfolding is_given get_or_null
in_scope spec target = any (λ name. is_given (get_or_null name target)) spec.target_scope

vendor_fits : ToolSpec → Option String → Bool
vendor_fits spec none = true
vendor_fits spec (some vendor) =
    str_eq vendor ""
    || (str_mem (lower vendor) spec.vendor_support || str_mem "all" spec.vendor_support)

is_empty : List String → Bool
is_empty [] = true
is_empty (_ ∷ _) = false

complain : Bool → String → List String
complain true e = e ∷ []
complain false e = []

-- The errors of `validate_agent_selection`; a tool may be selected if there are none.
unfoldable pub validate_agent_selection : ToolSpec → Fields → Option String → List String
unfolding in_scope vendor_fits is_empty complain
validate_agent_selection spec target vendor =
    complain (not spec.agent_selectable) "tool_not_agent_selectable"
    ++ (complain (not spec.read_only || not (str_eq spec.capability "read_only"))
          "tool_not_read_only"
        ++ (complain (not (is_empty spec.target_scope) && not (in_scope spec target))
              "target_out_of_scope"
            ++ (complain (not (is_empty spec.vendor_support) && not (vendor_fits spec vendor))
                  "vendor_not_supported"
                ++ (complain (not (truthy spec.output_parser)) "output_parser_missing"
                    ++ complain (not (truthy spec.evidence_mapper)) "evidence_mapper_missing"))))
