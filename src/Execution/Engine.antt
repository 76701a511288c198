-- ===== src/Execution/Engine.antt =====
-- `ExecutionEngine`: an action is tried by the executor of its type, again after a delay while it
-- fails and the policy allows it. What an executor does, and whether it accepts a configuration,
-- are parameters; its attempts are numbered from 0.
use agenticops.Prelude.{
  ℕ, zero, suc, ◌+◌, ◌*◌, ◌^◌, String, Bool, true, false, not, ◌&&◌, ◌||◌, Option, none, some, List,
  [], ◌∷◌, ltb, str_eq, format, or_else, same, if◌then◌else◌,
}
use agenticops.Prelude.Exec.{Result, ok, err}
use agenticops.Prelude.Json.{
  Json, Fields, null, text, num, obj, end, field, get_field, get_or_null, or_value, truth,
}
use agenticops.Policy.Settings.{SettingsDb, AutomationMode, get_automation_mode}

pub data ExecutorType : Type 0 where
  script api notification ssh : ExecutorType

pub data ExecutionStatus : Type 0 where
  pending running success failed aborted retrying : ExecutionStatus

unfoldable pub ExecutionStatus-discrete : Discrete ExecutionStatus
ExecutionStatus-discrete = hlevel

unfoldable pub status_value : ExecutionStatus → String
status_value pending = "pending"
status_value running = "running"
status_value success = "success"
status_value failed = "failed"
status_value aborted = "aborted"
status_value retrying = "retrying"

unfoldable pub type_value : ExecutorType → String
type_value script = "script"
type_value api = "api"
type_value notification = "notification"
type_value ssh = "ssh"

-- `ExecutorType(text)`
unfoldable pub executor_type_of : String → Option ExecutorType
executor_type_of s =
    if str_eq s "script"
    then some script
    else if str_eq s "api"
    then some api
    else if str_eq s "notification"
    then some notification
    else if str_eq s "ssh"
    then some ssh
    else none

-- `ExecutionStatus(text)`
unfoldable pub status_of : String → Option ExecutionStatus
status_of s =
    if str_eq s "pending"
    then some pending
    else if str_eq s "running"
    then some running
    else if str_eq s "success"
    then some success
    else if str_eq s "failed"
    then some failed
    else if str_eq s "aborted"
    then some aborted
    else if str_eq s "retrying"
    then some retrying
    else none

pub record ExecutionResult : Type 0 where
  pub status : ExecutionStatus
  pub message : Json
  pub details : Json
  pub output : Json
  pub error : Json

unfoldable pub to_dict : ℕ → ExecutionResult → Fields
unfolding status_value
to_dict now r = field "status" (text (status_value r.status)) (
    field "message" r.message (
      field "details" r.details
        (field "output" r.output (field "error" r.error (field "executed_at" (num now) end)))))

unfoldable pub is_success : ExecutionResult → Bool
is_success r = same ExecutionStatus-discrete r.status success

unfoldable pub is_failure : ExecutionResult → Bool
is_failure r =
    same ExecutionStatus-discrete r.status failed || same ExecutionStatus-discrete r.status aborted

-- The backoff factor is a whole number.
pub record RetryPolicy : Type 0 where
  pub max_retries : ℕ
  pub retry_delay : ℕ
  pub backoff_factor : ℕ

abbrev pub default_retry_policy : RetryPolicy
default_retry_policy = record { max_retries = 3; retry_delay = 5; backoff_factor = 2 }

unfoldable pub should_retry : RetryPolicy → ℕ → ExecutionResult → Bool
unfolding is_failure
should_retry p attempt r = ltb attempt p.max_retries && is_failure r

unfoldable pub get_retry_delay : RetryPolicy → ℕ → ℕ
get_retry_delay p attempt = p.retry_delay * p.backoff_factor ^ attempt

-- What a call of an executor comes to: a dict, or an exception with its text.
pub data Outcome : Type 0 where
  returned : Fields → Outcome
  raised : String → Outcome

-- A registered executor, with a call of `execute` by the run, the attempt and the configuration.
pub record Executor : Type 0 where
  pub validate_config : Fields → Bool
  pub execute : ℕ → ℕ → Fields → Outcome

unfoldable pub failure : String → String → ExecutionResult
failure message error = record {
  status = failed;
  message = text message;
  details = obj end;
  output = null;
  error = text error;
}

unfoldable pub of_status : Fields → Option ExecutionStatus → ExecutionResult
unfolding failure format
of_status d none =
    failure "Execution error: not a valid ExecutionStatus" "not a valid ExecutionStatus"
of_status d (some status) = record {
  status = status;
  message = or_else (get_field "message" d) (text "");
  details = or_value (or_else (get_field "details" d) (obj end)) (obj end);
  output = get_or_null "output" d;
  error = get_or_null "error" d;
}

unfoldable pub status_in : Json → Option ExecutionStatus
unfolding status_of
status_in (text s) = status_of s
status_in _ = none

-- The result of an attempt; a status that is none of the six raises.
unfoldable pub attempted : Outcome → ExecutionResult
unfolding of_status status_in failure format
attempted (returned d) = of_status d (status_in (or_else (get_field "status" d) (text "failed")))
attempted (raised e) = failure (format ("Execution error: " ∷ e ∷ [])) e

-- What the engine leaves: the result, how often the executor was called, the delays slept before.
pub record Trial : Type 0 where
  pub result : Option ExecutionResult
  pub calls : ℕ
  pub slept : List ℕ

unfoldable pub before : RetryPolicy → ℕ → List ℕ → List ℕ
unfolding get_retry_delay
before p zero later = later
before p (suc attempt) later = get_retry_delay p attempt ∷ later

unfoldable pub finished : RetryPolicy → ℕ → ExecutionResult → Trial
unfolding before
finished p attempt r = record { result = some r; calls = 1; slept = before p attempt [] }

unfoldable pub resumed : RetryPolicy → ℕ → Trial → Trial
unfolding before
resumed p attempt t = record {
  result = t.result;
  calls = t.calls + 1;
  slept = before p attempt t.slept;
}

-- `for attempt in range(...)`, by the rounds that are left.
unfoldable pub attempts : (ℕ → Outcome) → RetryPolicy → ℕ → ℕ → Option ExecutionResult → Trial
unfolding attempted is_success should_retry finished resumed
attempts run p zero attempt last = record { result = last; calls = 0; slept = [] }
attempts run p (suc n) attempt last =
    let r = attempted (run attempt) in
    let again = resumed p attempt (attempts run p n (attempt + 1) (some r)) in
    if is_success r || not (should_retry p attempt r) then finished p attempt r else again

unfoldable pub untried : ExecutionResult → Trial
untried r = record { result = some r; calls = 0; slept = [] }

mode_or : Result AutomationMode → Bool → Bool
mode_or (ok mode) fallback = mode.is_observe_only
mode_or (err _) fallback = fallback

-- The automation mode as the engine reads it, in a session of its own that is not committed.
unfoldable pub observes : Bool → SettingsDb → Bool
unfolding mode_or get_automation_mode
observes observe_only settings = mode_or (get_automation_mode observe_only settings).0 observe_only

is_notification : ExecutorType → Bool
is_notification notification = true
is_notification _ = false

-- Observe-only mode blocks what is neither a notification nor marked as reading.
unfoldable pub blocks : Bool → ExecutorType → Fields → Bool
unfolding is_notification truth get_or_null
blocks observing type config =
    observing && (not (is_notification type) && not (truth (get_or_null "read_only" config)))

unfoldable pub run_executor : Executor → ℕ → Bool → ExecutorType → Fields → RetryPolicy → Trial
unfolding attempts untried failure blocks
run_executor executor task_id observing type config p =
    if blocks observing type config
    then untried (record {
      status = aborted;
      message = text "Action blocked in observe-only mode";
      details = obj end;
      output = null;
      error = text "Set action_config.read_only=true or disable automation_observe_only";
    })
    else if not (executor.validate_config config)
    then untried (failure "Invalid action configuration" "Action configuration validation failed")
    else attempts (λ attempt. executor.execute task_id attempt config) p (suc p.max_retries) 0 none

unfoldable pub execute_with :
    Option Executor → ℕ → Bool → ExecutorType → Fields → RetryPolicy → Trial
unfolding run_executor untried failure format type_value
execute_with none task_id observing type config p = untried (
    failure (format ("Executor not found for type: " ∷ type_value type ∷ []))
      (format ("No executor registered for " ∷ type_value type ∷ [])))
execute_with (some executor) task_id observing type config p =
    run_executor executor task_id observing type config p

-- `execute_action`, by the registered executors, the observe-only default and the settings.
unfoldable pub execute_action :
    (ExecutorType → Option Executor)
    → Bool
    → SettingsDb
    → ℕ
    → ExecutorType
    → Fields
    → Option RetryPolicy
    → Trial
unfolding execute_with observes
execute_action executors observe_only settings task_id type config policy =
    execute_with (executors type) task_id (observes observe_only settings) type config
      (or_else policy default_retry_policy)
