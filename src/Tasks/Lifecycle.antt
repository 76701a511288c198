-- ===== src/Tasks/Lifecycle.antt =====
-- The life of a task under `transition`.
use agenticops.Prelude.{
  ℕ, ◌+◌, ◌<◌, String, ◌≡◌, ◌⊎◌, inl, inr, true, Option, none, some, [], ◌∷◌, arith, is_some,
  or_else, format, Bool-cases, if◌then◌else◌,
}
use agenticops.Prelude.Exec.{Error, value_error, ok, err}
use agenticops.Prelude.Json.{Fields}
use agenticops.Tasks.Status.{
  TaskStatus, running, completed, cancelled, timed_out, task_transitions, status_eq, status_eq→eq,
  status_eq_refl, status_name, status_mem, is_finished,
}
use agenticops.Tasks.Store.{AgentTask}
use agenticops.Tasks.Transition.{Work, changed, transition}

-- A call is refused and leaves the task, it finds the task there already and changes nothing, or
-- the table permits it and the task is changed as `changed` says and returned.
pub transition_cases :
    (now : ℕ) (to : TaskStatus) (output : Option Fields) (error : Option String) (w : Work)
    → ((e : Error) × (transition now to output error w ≡ (err e, w)))
      ⊎ ((w.task.status ≡ to) × (transition now to output error w ≡ (ok w.task, w)))
      ⊎ ((status_mem to (task_transitions w.task.status) ≡ true)
          × ((transition now to output error w).0 ≡ ok (changed now to output error w.task))
          × ((transition now to output error w).1.task ≡ changed now to output error w.task))
unfolding transition
transition_cases now to output error w = elim (Bool-cases (status_eq w.task.status to)) [
  | inl there ↦ inr (inl (status_eq→eq _ _ there, ground arith))
  | inr other ↦ elim (Bool-cases (status_mem to (task_transitions w.task.status))) [
    | inl permitted ↦ inr (inr (permitted, ground arith, ground arith))
    | inr illegal ↦ inl (
      value_error (
          format (
            "illegal task transition: "
            ∷ status_name w.task.status
            ∷ " -> "
            ∷ status_name to
            ∷ [])),
      ground arith,
    )
  ]
]

-- What holds of a task between two calls.
pub record IsCoherent (t : AgentTask) : Type 0 where
  pub attempted : 0 < t.attempt_count → is_some t.started_at ≡ true
  pub running_started : t.status ≡ running → 0 < t.attempt_count
  pub finished_stamped : is_finished t.status ≡ true → is_some t.finished_at ≡ true

-- The columns that the output and the error do not touch.
changed_columns :
    (now : ℕ) (to : TaskStatus) (output : Option Fields) (error : Option String) (t : AgentTask)
    → let c = changed now to output error t in
      (c.status ≡ to)
      × (c.attempt_count ≡ (if status_eq to running then t.attempt_count + 1 else t.attempt_count))
      × (c.started_at
          ≡ (if status_eq to running then some (or_else t.started_at now) else t.started_at))
      × (c.finished_at ≡ (if is_finished to then some now else t.finished_at))
unfolding changed
changed_columns now to none none t = ground arith
changed_columns now to none (some e) t = ground arith
changed_columns now to (some o) none t = ground arith
changed_columns now to (some o) (some e) t = ground arith

changed-IsCoherent :
    (now : ℕ) (to : TaskStatus) (output : Option Fields) (error : Option String) (t : AgentTask)
    → IsCoherent t
    → IsCoherent (changed now to output error t)
changed-IsCoherent now to output error t h = record {
  attempted = ground (arith, changed_columns now to output error t);
  running_started = ground (arith, changed_columns now to output error t, status_eq_refl running);
  finished_stamped = ground (arith, changed_columns now to output error t);
}

-- If a task that was attempted has a start, a running task an attempt and a finished task an
-- end, then so it is after a call of transition.
pub transition-IsCoherent :
    (now : ℕ) (to : TaskStatus) (output : Option Fields) (error : Option String) (w : Work)
    → IsCoherent w.task
    → IsCoherent (transition now to output error w).1.task
transition-IsCoherent now to output error w h = elim (transition_cases now to output error w) [
  | inl (e, p) ↦ rw p h
  | inr (inl (there, p)) ↦ rw p h
  | inr (inr (permitted, p, p')) ↦ rw p' (changed-IsCoherent now to output error w.task h)
]

-- The statuses that the table leaves for good.
abbrev pub IsDone : TaskStatus → Type 0
IsDone s = (s ≡ completed) ⊎ (s ≡ cancelled) ⊎ (s ≡ timed_out)

IsDone-transitions : (s : TaskStatus) → IsDone s → task_transitions s ≡ []
unfolding task_transitions
IsDone-transitions s (inl e) = rw e
IsDone-transitions s (inr (inl e)) = rw e
IsDone-transitions s (inr (inr e)) = rw e

no_way_out : (s to : TaskStatus) → IsDone s → status_mem to (task_transitions s) ≡ true → ⊥
unfolding status_mem
no_way_out s to h permitted = ground (arith, IsDone-transitions s h)

-- A completed, cancelled or timed-out task, and the metrics, are as they were after any call of
-- transition.
pub done_is_final :
    (now : ℕ) (to : TaskStatus) (output : Option Fields) (error : Option String) (w : Work)
    → IsDone w.task.status
    → (transition now to output error w).1 ≡ w
done_is_final now to output error w h = elim (transition_cases now to output error w) [
  | inl (e, p) ↦ rw p
  | inr (inl (there, p)) ↦ rw p
  | inr (inr (permitted, p, p')) ↦ absurd (no_way_out w.task.status to h permitted)
]
