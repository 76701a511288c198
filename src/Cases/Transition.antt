-- ===== src/Cases/Transition.antt =====
-- `CaseStateService.transition`.
use agenticops.Prelude.{
  ℕ, String, Bool, true, Option, none, some, List, [], ◌∷◌, ◌++◌, find?, update_first, str_eq,
  text_or, format, if◌then◌else◌,
}
use agenticops.Prelude.Exec.{
  Exec, lookup_error, invalid_case_transition, pure, gets, modify, require, some_or, ◌>>=◌, ◌>>◌,
}
use agenticops.Prelude.Json.{Items, text, num, arr, nil, cons, end, field}
use agenticops.Cases.Status.{CaseStatus, value, allowed, status_eq, status_mem, is_terminal}
use agenticops.Cases.Store.{
  CaseRecord, CaseStateTransition, CaseTimelineEvent, CaseDb, append, increment, has_id, find_case,
}

-- The keyword arguments. Every caller passes a `CaseStatus` or the value of one as `to_state`.
pub record TransitionRequest : Type 0 where
  pub case_id : ℕ
  pub to_state : CaseStatus
  pub trigger_type : String
  pub reason : String
  pub idempotency_key : String
  pub graph_run_id : Option String
  pub trigger_id : Option String
  pub agent_run_id : Option ℕ
  pub task_id : Option ℕ
  pub evidence_ids : List ℕ
  pub correlation_id : String
  pub expected_from : Option CaseStatus
  pub phase : Option String

unfoldable pub has_key : String → CaseStateTransition → Bool
has_key key t = str_eq t.idempotency_key key

-- `expected_from and current != expected_from` fails the request.
unfoldable pub expectation_met : Option CaseStatus → CaseStatus → Bool
expectation_met none current = true
expectation_met (some expected) current = status_eq current expected

-- Not: `current != target and target not in ALLOWED.get(current, set())`.
unfoldable pub may_move : CaseStatus → CaseStatus → Bool
may_move current target =
    if status_eq current target then true else status_mem target (allowed current)

ids : List ℕ → Items
ids [] = nil
ids (i ∷ is) = cons (num i) (ids is)

unfoldable pub journal_row : CaseStatus → TransitionRequest → CaseStateTransition
journal_row current q = record {
  case_id = q.case_id;
  graph_run_id = q.graph_run_id;
  from_state = current;
  to_state = q.to_state;
  trigger_type = q.trigger_type;
  trigger_id = q.trigger_id;
  reason = q.reason;
  agent_run_id = q.agent_run_id;
  task_id = q.task_id;
  evidence_ids = q.evidence_ids;
  correlation_id = q.correlation_id;
  idempotency_key = q.idempotency_key;
}

unfoldable pub timeline_row : CaseStatus → TransitionRequest → CaseTimelineEvent
unfolding ids
timeline_row current q = record {
  case_id = q.case_id;
  graph_run_id = q.graph_run_id;
  task_id = q.task_id;
  event_type = "case_state_transition";
  title = format ("Case " ∷ value current ∷ " → " ∷ value q.to_state ∷ []);
  actor_type = q.trigger_type;
  actor_id = q.trigger_id;
  correlation_id = q.correlation_id;
  idempotency_key = format ("timeline:" ∷ q.idempotency_key ∷ []);
  payload = field "from" (text (value current)) (
      field "to" (text (value q.to_state))
        (field "reason" (text q.reason) (field "evidence_ids" (arr (ids q.evidence_ids)) end)));
}

-- The writes to the case: status, phase, activity, and the closing time.
unfoldable pub moved : ℕ → TransitionRequest → CaseRecord → CaseRecord
moved now q c = record c {
  status = q.to_state;
  current_phase = text_or q.phase (value q.to_state);
  last_activity_at = now;
  closed_at = if is_terminal q.to_state then some now else none;
}

-- What happens once the guards have passed.
unfoldable pub record_move : ℕ → TransitionRequest → CaseRecord → Exec CaseDb CaseStateTransition
unfolding moved journal_row has_id
record_move now q c = do
  let row = journal_row c.status q
  modify (λ db. record db { transitions = db.transitions ++ row ∷ [] })
  modify (λ db. record db { cases = update_first (has_id q.case_id) (moved now q) db.cases })
  _ ← append (timeline_row c.status q)
  increment "case_state_transition_total"
      (("from_state", value c.status) ∷ ("to_state", value q.to_state) ∷ [])
  pure row

unfoldable pub fresh_transition : ℕ → TransitionRequest → Exec CaseDb CaseStateTransition
unfolding expectation_met may_move find_case
fresh_transition now q = do
  found ← gets (find_case q.case_id)
  c ← some_or found (lookup_error "case not found")
  require (expectation_met q.expected_from c.status) (invalid_case_transition (value c.status))
  require (may_move c.status q.to_state) (invalid_case_transition (value c.status))
  record_move now q c

-- The two outcomes of the look-up by idempotency key.
unfoldable pub transition_unless :
    Option CaseStateTransition → ℕ → TransitionRequest → Exec CaseDb CaseStateTransition
transition_unless (some prior) now q = pure prior
transition_unless none now q = fresh_transition now q

unfoldable pub transition : ℕ → TransitionRequest → Exec CaseDb CaseStateTransition
unfolding transition_unless has_key
transition now q = do
  prior ← gets (λ db. find? (has_key q.idempotency_key) db.transitions)
  transition_unless prior now q
