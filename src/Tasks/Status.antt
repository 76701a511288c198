-- ===== src/Tasks/Status.antt =====
-- The statuses of a task and the table `TASK_TRANSITIONS`.
use agenticops.Prelude.{
  String, ◌≡◌, Bool, true, false, ◌||◌, List, [], ◌∷◌, same, same_refl, same→eq,
}

pub data TaskStatus : Type 0 where
  pending ready running waiting_evidence waiting_agent waiting_human : TaskStatus
  completed failed cancelled timed_out : TaskStatus

unfoldable pub TaskStatus-discrete : Discrete TaskStatus
TaskStatus-discrete = hlevel

unfoldable pub status_name : TaskStatus → String
status_name pending = "pending"
status_name ready = "ready"
status_name running = "running"
status_name waiting_evidence = "waiting_evidence"
status_name waiting_agent = "waiting_agent"
status_name waiting_human = "waiting_human"
status_name completed = "completed"
status_name failed = "failed"
status_name cancelled = "cancelled"
status_name timed_out = "timed_out"

-- `TASK_TRANSITIONS.get(current, set())`
unfoldable pub task_transitions : TaskStatus → List TaskStatus
task_transitions pending = ready ∷ cancelled ∷ []
task_transitions ready = running ∷ cancelled ∷ timed_out ∷ []
task_transitions running =
    waiting_evidence ∷ waiting_agent ∷ waiting_human ∷ completed ∷ failed ∷ timed_out ∷ []
task_transitions waiting_evidence = ready ∷ cancelled ∷ timed_out ∷ []
task_transitions waiting_agent = ready ∷ cancelled ∷ timed_out ∷ []
task_transitions waiting_human = ready ∷ cancelled ∷ timed_out ∷ []
task_transitions failed = ready ∷ cancelled ∷ []
task_transitions completed = []
task_transitions cancelled = []
task_transitions timed_out = []

unfoldable pub status_eq : TaskStatus → TaskStatus → Bool
unfolding TaskStatus-discrete
status_eq = same TaskStatus-discrete

unfoldable pub status_mem : TaskStatus → List TaskStatus → Bool
unfolding status_eq
status_mem s [] = false
status_mem s (t ∷ ts) = status_eq s t || status_mem s ts

-- `to_status in {"completed", "failed", "cancelled", "timed_out"}`
unfoldable pub is_finished : TaskStatus → Bool
is_finished completed = true
is_finished failed = true
is_finished cancelled = true
is_finished timed_out = true
is_finished _ = false

pub status_eq_refl : (s : TaskStatus) → status_eq s s ≡ true
unfolding status_eq
status_eq_refl s = same_refl TaskStatus-discrete s

pub status_eq→eq : (s t : TaskStatus) → status_eq s t ≡ true → s ≡ t
unfolding status_eq
status_eq→eq s t h = same→eq TaskStatus-discrete s t h
