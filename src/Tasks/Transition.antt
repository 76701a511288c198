-- ===== src/Tasks/Transition.antt =====
-- `AgentTaskService.transition`.
use agenticops.Prelude.{
  ℕ, ◌+◌, ◌-◌, String, Option, none, some, List, [], ◌∷◌, ◌++◌, or_else, take_text, format,
  if◌then◌else◌,
}
use agenticops.Prelude.Exec.{Exec, value_error, pure, modify, require, ◌>>◌}
use agenticops.Prelude.Json.{Fields}
use agenticops.Cases.Store.{Metric, count_metric}
use agenticops.Tasks.Status.{
  TaskStatus, running, status_name, task_transitions, status_eq, status_mem, is_finished,
}
use agenticops.Tasks.Store.{AgentTask}

-- The task object that the session holds, and the metrics registry.
pub record Work : Type 0 where
  pub task : AgentTask
  pub metrics : List Metric

-- `task.started_at = task.started_at or now; task.attempt_count += 1` on entering `running`.
unfoldable pub enter : ℕ → TaskStatus → AgentTask → AgentTask
enter now to_status t =
    if status_eq to_status running
    then record t {
      started_at = some (or_else t.started_at now);
      attempt_count = t.attempt_count + 1;
    }
    else t

unfoldable pub leave : ℕ → TaskStatus → AgentTask → AgentTask
leave now to_status t = if is_finished to_status then record t { finished_at = some now } else t

-- The time that a finished task took, counted if it was ever started.
duration_metric : ℕ → TaskStatus → Option ℕ → AgentTask → List Metric → List Metric
duration_metric now to_status none t ms = ms
duration_metric now to_status (some started) t ms =
    if is_finished to_status
    then (ms
        ++ record {
          name = "agent_task_duration_seconds";
          amount = now - started;
          labels = ("task_type", t.task_type) ∷ ("status", status_name to_status) ∷ [];
        }
          ∷ [])
    else ms

unfoldable pub with_output : Option Fields → AgentTask → AgentTask
with_output none t = t
with_output (some output) t = record t { output_payload = output }

unfoldable pub with_error : Option String → AgentTask → AgentTask
with_error none t = t
with_error (some error) t = record t { error_message = some (take_text 4000 error) }

-- The task after a permitted change of status.
unfoldable pub changed : ℕ → TaskStatus → Option Fields → Option String → AgentTask → AgentTask
unfolding enter leave with_output with_error
changed now to_status output error t = with_error error (
    with_output output
      (leave now to_status (enter now to_status (record t { status = to_status }))))

unfoldable pub change : ℕ → TaskStatus → Option Fields → Option String → Exec Work AgentTask
unfolding changed duration_metric count_metric
change now to_status output error w =
    let t = changed now to_status output error w.task in
    (modify (λ w'. record w' {
      task = t;
      metrics = duration_metric now to_status t.started_at t w'.metrics;
    })
        >> modify (λ w'. record w' {
          metrics =
              count_metric "agent_task_total"
                (("task_type", t.task_type) ∷ ("status", status_name to_status) ∷ []) w'.metrics;
        })
        >> pure t)
      w

-- The call returns early when the task is there already, and refuses what the table does not hold.
unfoldable pub transition : ℕ → TaskStatus → Option Fields → Option String → Exec Work AgentTask
unfolding change
transition now to_status output error w =
    if status_eq w.task.status to_status
    then pure w.task w
    else (require (status_mem to_status (task_transitions w.task.status)) (
            value_error (
              format (
                "illegal task transition: "
                ∷ status_name w.task.status
                ∷ " -> "
                ∷ status_name to_status
                ∷ [])))
          >> change now to_status output error)
        w
