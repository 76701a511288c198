-- ===== src/Cases/Store.antt =====
-- The rows that the case services read and write, the metrics registry and the timeline.
use agenticops.Prelude.{
  ℕ, String, Bool, Option, none, some, List, [], ◌∷◌, ◌++◌, ◌==◌, find?, str_eq,
}
use agenticops.Prelude.Exec.{Exec, pure, gets, modify, ◌>>=◌, ◌>>◌}
use agenticops.Prelude.Json.{Fields}
use agenticops.Cases.Status.{CaseStatus}

-- The columns of `CaseRecord` that the services change, beside its key. Times are seconds.
pub record CaseRecord : Type 0 where
  pub id : ℕ
  pub status : CaseStatus
  pub current_phase : String
  pub last_activity_at : ℕ
  pub closed_at : Option ℕ

pub record CaseStateTransition : Type 0 where
  pub case_id : ℕ
  pub graph_run_id : Option String
  pub from_state : CaseStatus
  pub to_state : CaseStatus
  pub trigger_type : String
  pub trigger_id : Option String
  pub reason : String
  pub agent_run_id : Option ℕ
  pub task_id : Option ℕ
  pub evidence_ids : List ℕ
  pub correlation_id : String
  pub idempotency_key : String

pub record CaseTimelineEvent : Type 0 where
  pub case_id : ℕ
  pub graph_run_id : Option String
  pub task_id : Option ℕ
  pub event_type : String
  pub title : String
  pub actor_type : String
  pub actor_id : Option String
  pub correlation_id : String
  pub idempotency_key : String
  pub payload : Fields

-- One call of `metrics_registry.increment`: a counter is the sum of the amounts under its name and
-- labels.
pub record Metric : Type 0 where
  pub name : String
  pub amount : ℕ
  pub labels : List (String × String)

unfoldable pub count_metric : String → List (String × String) → List Metric → List Metric
count_metric name labels ms = ms ++ record { name = name; amount = 1; labels = labels } ∷ []

pub record CaseDb : Type 0 where
  pub cases : List CaseRecord
  pub transitions : List CaseStateTransition
  pub timeline : List CaseTimelineEvent
  pub metrics : List Metric

unfoldable pub increment : String → List (String × String) → Exec CaseDb Unit
unfolding count_metric
increment name labels = modify (λ db. record db { metrics = count_metric name labels db.metrics })

unfoldable pub has_event_key : String → CaseTimelineEvent → Bool
has_event_key key e = str_eq e.idempotency_key key

-- The two outcomes of the look-up in `CaseTimelineService.append`.
unfoldable pub append_unless :
    Option CaseTimelineEvent → CaseTimelineEvent → Exec CaseDb CaseTimelineEvent
unfolding increment
append_unless (some existing) event = pure existing
append_unless none event = do
  modify (λ db. record db { timeline = db.timeline ++ event ∷ [] })
  increment "case_timeline_event_total" (("event_type", event.event_type) ∷ [])
  pure event

-- `CaseTimelineService.append` of the event that the arguments make.
unfoldable pub append : CaseTimelineEvent → Exec CaseDb CaseTimelineEvent
unfolding has_event_key append_unless
append event = do
  existing ← gets (λ db. find? (has_event_key event.idempotency_key) db.timeline)
  append_unless existing event

unfoldable pub has_id : ℕ → CaseRecord → Bool
has_id i c = c.id == i

unfoldable pub find_case : ℕ → CaseDb → Option CaseRecord
unfolding has_id
find_case i db = find? (has_id i) db.cases
