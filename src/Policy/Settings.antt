-- ===== src/Policy/Settings.antt =====
-- `AutomationSettingsService`: the stored mode, and the autonomy level that it stands for. The row
-- is the value column of the setting `automation_mode`, where there is one.
use agenticops.Prelude.{ℕ, String, Bool, Option, none, some, leb, str_eq, if◌then◌else◌}
use agenticops.Prelude.Exec.{Exec, value_error, pure, raise, gets, modify, ◌>>=◌, ◌>>◌}
use agenticops.Prelude.Json.{
  Json, Fields, text, num, end, field, get_field, get_or_null, int_of, put_field,
}

-- `AutonomyLevel`
abbrev pub observe_only_level : ℕ
observe_only_level = 0

abbrev pub recommend_level : ℕ
recommend_level = 1

abbrev pub assisted_level : ℕ
assisted_level = 2

-- `_MODE_TO_LEVEL`
unfoldable pub mode_to_level : String → Option ℕ
mode_to_level mode =
    if str_eq mode "observe_only"
    then some recommend_level
    else if str_eq mode "auto"
    then some assisted_level
    else none

default_level : Bool → ℕ
default_level observe_only = if observe_only then recommend_level else assisted_level

-- `str(value_dict.get("mode") or "")`; a mode that is no text has no level.
mode_text : Json → String
mode_text (text s) = s
mode_text _ = ""

level_of_mode : Fields → Bool → ℕ
unfolding mode_text mode_to_level default_level get_or_null
level_of_mode value observe_only = elim (mode_to_level (mode_text (get_or_null "mode" value))) [
  | some level ↦ level
  | none ↦ default_level observe_only
]

-- A stored level counts if it is a number up to 5.
unfoldable pub stored_level : Option Json → Option ℕ
unfolding int_of
stored_level none = none
stored_level (some v) = elim (int_of v) [
  | none ↦ none
  | some level ↦ if leb level 5 then some level else none
]

-- `_derive_level`
unfoldable pub derive_level : Fields → Bool → ℕ
unfolding level_of_mode stored_level get_field
derive_level value observe_only = elim (stored_level (get_field "autonomy_level" value)) [
  | some level ↦ level
  | none ↦ level_of_mode value observe_only
]

pub record SettingsDb : Type 0 where
  pub row : Option Fields

abbrev pub initial_value : Fields
initial_value = field "mode" (text "observe_only") (field "autonomy_level" (num 1) end)

unfoldable pub row_or_new : Option Fields → Exec SettingsDb Fields
row_or_new (some value) = pure value
row_or_new none = do modify (λ s. record s { row = some initial_value }); pure initial_value

-- `_get_or_create_row`
unfoldable pub get_or_create_row : Exec SettingsDb Fields
unfolding row_or_new
get_or_create_row = do row ← gets (λ s. s.row); row_or_new row

unfoldable pub get_autonomy_level : Bool → Exec SettingsDb ℕ
unfolding get_or_create_row derive_level
get_autonomy_level observe_only = do
  value ← get_or_create_row
  pure (derive_level value observe_only)

unfoldable pub mode_of_level : ℕ → String
mode_of_level level = if leb level recommend_level then "observe_only" else "auto"

-- What `get_automation_mode` returns, less the texts for the page.
pub record AutomationMode : Type 0 where
  pub mode : String
  pub autonomy_level : ℕ
  pub is_observe_only : Bool

unfoldable pub get_automation_mode : Bool → Exec SettingsDb AutomationMode
unfolding get_autonomy_level mode_of_level
get_automation_mode observe_only = do
  level ← get_autonomy_level observe_only
  pure (record {
    mode = mode_of_level level;
    autonomy_level = level;
    is_observe_only = leb level recommend_level;
  })

unfoldable pub stored : ℕ → Fields → Fields
unfolding put_field mode_of_level
stored level value =
    put_field "mode" (text (mode_of_level level)) (put_field "autonomy_level" (num level) value)

unfoldable pub set_autonomy_level : Bool → ℕ → Exec SettingsDb AutomationMode
unfolding stored get_or_create_row get_automation_mode
set_autonomy_level observe_only level =
    if leb level 5
    then (do
      value ← get_or_create_row
      modify (λ s. record s { row = some (stored level value) })
      get_automation_mode observe_only)
    else raise (value_error "autonomy_level out of range")

set_level_or : Bool → Option ℕ → Exec SettingsDb AutomationMode
set_level_or observe_only none = raise (value_error "Invalid mode")
set_level_or observe_only (some level) = set_autonomy_level observe_only level

unfoldable pub set_automation_mode : Bool → String → Exec SettingsDb AutomationMode
unfolding set_level_or set_autonomy_level mode_to_level
set_automation_mode observe_only mode = set_level_or observe_only (mode_to_level mode)

unfoldable pub toggle_automation_mode : Bool → Exec SettingsDb AutomationMode
unfolding set_autonomy_level get_autonomy_level
toggle_automation_mode observe_only = do
  level ← get_autonomy_level observe_only
  set_autonomy_level observe_only
      (if leb level recommend_level then assisted_level else recommend_level)
