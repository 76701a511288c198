-- ===== src/Execution/Attempts.antt =====
-- How often an executor is called, and with which result.
use agenticops.Prelude.{
  ◌⊎◌, ◌||◌, is_some, if-both, ap, ℕ, zero, suc, ◌+◌, ◌≤◌, ◌≡◌, refl, Bool, true, false, not,
  Option, none, some, arith, Bool-cases, inl, inr, or_else, same, if◌then◌else◌,
}
use agenticops.Prelude.Json.{Fields}
use agenticops.Policy.Settings.{SettingsDb}
use agenticops.Execution.Engine.{
  ExecutorType, ExecutionStatus, success, failed, aborted, pending, running, retrying,
  ExecutionStatus-discrete, ExecutionResult, RetryPolicy, default_retry_policy, Outcome, Executor,
  Trial, is_success, is_failure, should_retry, attempted, attempts, finished, resumed, untried,
  blocks, run_executor, execute_with, execute_action, observes,
}

-- A result there is after at most `n` calls; the delays lie between the calls; and if it is a
-- failure, all `n` calls were made.
pub record Exhausts (n : ℕ) (r : ExecutionResult) (t : Trial) : Type 0 where
  pub answered : t.result ≡ some r
  pub called : 1 ≤ t.calls
  pub limited : t.calls ≤ n
  pub persistent : is_failure r ≡ true → t.calls ≡ n

-- The result of the last attempt that is made.
unfoldable pub last_tried : (ℕ → Outcome) → ℕ → ℕ → ExecutionResult
unfolding attempted is_failure
last_tried run zero attempt = attempted (run attempt)
last_tried run (suc n) attempt =
    let later = last_tried run n (attempt + 1) in
    if is_failure (attempted (run attempt)) then later else attempted (run attempt)

failed_not_success :
    (s : ExecutionStatus)
    → (same ExecutionStatus-discrete s failed || same ExecutionStatus-discrete s aborted) ≡ true
    → same ExecutionStatus-discrete s success ≡ false
unfolding ExecutionStatus-discrete
failed_not_success pending h = refl
failed_not_success running h = refl
failed_not_success success h = cc
failed_not_success failed h = refl
failed_not_success aborted h = refl
failed_not_success retrying h = refl

failure_not_success : (r : ExecutionResult) → is_failure r ≡ true → is_success r ≡ false
unfolding is_failure is_success
failure_not_success r h = failed_not_success r.status h

attempts-Exhausts :
    (run : ℕ → Outcome) (p : RetryPolicy) (n attempt : ℕ) (last : Option ExecutionResult)
    → attempt + n ≡ p.max_retries
    → Exhausts (n + 1) (last_tried run n attempt) (attempts run p (suc n) attempt last)
unfolding attempts last_tried should_retry finished resumed
attempts-Exhausts run p zero attempt last h = ground arith
attempts-Exhausts run p (suc n) attempt last h =
    let r = attempted (run attempt) in
    elim (Bool-cases (is_failure r)) [
      | inr passed ↦ ground (arith, passed)
      | inl broken ↦
          let rest = attempts-Exhausts run p n (attempt + 1) (some r) (omega (arith, h)) in
          ground (
            arith,
            broken,
            h,
            failure_not_success r,
            rest.answered,
            rest.called,
            rest.limited,
            rest.persistent,
          )
    ]

-- Nothing is called, or the engine calls as often as the policy allows or until it does not fail.
pub record IsTrial (run : ℕ → Outcome) (p : RetryPolicy) (t : Trial) : Type 0 where
  pub answered : is_some t.result ≡ true
  pub limited : t.calls ≤ p.max_retries + 1
  pub last : (t.calls ≡ 0) ⊎ Exhausts (p.max_retries + 1) (last_tried run p.max_retries 0) t

run_executor-IsTrial :
    (e : Executor) (task_id : ℕ) (observing : Bool) (type : ExecutorType) (config : Fields)
    (p : RetryPolicy)
    → IsTrial
        (λ attempt. e.execute task_id attempt config)
        p
        (run_executor e task_id observing type config p)
unfolding run_executor untried
run_executor-IsTrial e task_id observing type config p =
    let run : ℕ → Outcome = λ attempt. e.execute task_id attempt config in
    let tried = attempts-Exhausts run p p.max_retries 0 none (omega arith) in
    if-both (IsTrial run p) (blocks observing type config)
      (record { answered = refl; limited = omega arith; last = inl refl })
      (if-both (IsTrial run p) (not (e.validate_config config))
        (record { answered = refl; limited = omega arith; last = inl refl })
        (record {
          answered = ap is_some tried.answered;
          limited = tried.limited;
          last = inr tried;
        }))

blocked_with :
    (e : Option Executor) (task_id : ℕ) (observing : Bool) (type : ExecutorType) (config : Fields)
    (p : RetryPolicy)
    → blocks observing type config ≡ true
    → (execute_with e task_id observing type config p).calls ≡ 0
unfolding execute_with run_executor untried
blocked_with none task_id observing type config p h = refl
blocked_with (some e) task_id observing type config p h = rw h refl

-- For a registered executor, execute_action gives a result after at most one call more than the
-- retries that the policy allows; if it calls the executor at all, then the result is that of
-- the first attempt that does not fail, or of the last one, and a failure is reported only after
-- all of these calls.
pub execute_action-IsTrial :
    (executors : ExecutorType → Option Executor) (observe_only : Bool) (settings : SettingsDb)
    (task_id : ℕ) (type : ExecutorType) (config : Fields) (policy : Option RetryPolicy)
    (e : Executor)
    → executors type ≡ some e
    → IsTrial
        (λ attempt. e.execute task_id attempt config)
        (or_else policy default_retry_policy)
        (execute_action executors observe_only settings task_id type config policy)
unfolding execute_action execute_with
execute_action-IsTrial executors observe_only settings task_id type config policy e h = rw h (
    run_executor-IsTrial e task_id (observes observe_only settings) type config
      (or_else policy default_retry_policy))

-- In observe-only mode no executor is called but for a notification or a reading action.
pub blocked_calls_none :
    (executors : ExecutorType → Option Executor) (observe_only : Bool) (settings : SettingsDb)
    (task_id : ℕ) (type : ExecutorType) (config : Fields) (policy : Option RetryPolicy)
    → blocks (observes observe_only settings) type config ≡ true
    → (execute_action executors observe_only settings task_id type config policy).calls ≡ 0
unfolding execute_action
blocked_calls_none executors observe_only settings task_id type config policy h =
    blocked_with (executors type) task_id (observes observe_only settings) type config
      (or_else policy default_retry_policy) h

limited_with :
    (e : Option Executor) (task_id : ℕ) (observing : Bool) (type : ExecutorType) (config : Fields)
    (p : RetryPolicy)
    → (execute_with e task_id observing type config p).calls ≤ p.max_retries + 1
unfolding execute_with untried
limited_with none task_id observing type config p = omega arith
limited_with (some e) task_id observing type config p =
    (run_executor-IsTrial e task_id observing type config p).limited

-- No more calls than the policy's retries and one.
pub execute_action_limited :
    (executors : ExecutorType → Option Executor) (observe_only : Bool) (settings : SettingsDb)
    (task_id : ℕ) (type : ExecutorType) (config : Fields) (policy : Option RetryPolicy)
    → (execute_action executors observe_only settings task_id type config policy).calls
      ≤ (or_else policy default_retry_policy).max_retries + 1
unfolding execute_action
execute_action_limited executors observe_only settings task_id type config policy =
    limited_with (executors type) task_id (observes observe_only settings) type config
      (or_else policy default_retry_policy)
