-- ===== src/Tests/CaseTests.antt =====
-- A case that is triaged, and then collects evidence.
use agenticops.Prelude.{arith, true, false, ℕ, ◌≡◌, refl, none, some, [], ◌∷◌, All, find?}
use agenticops.Prelude.Exec.{ok, err, lookup_error}
use agenticops.Cases.Status.{
  CaseStatus, triaged, evidence_collecting, escalated, failed, resolved, is_terminal, status_mem,
  status_eq, allowed,
}
use agenticops.Cases.Store.{CaseRecord, CaseDb, append, find_case, has_id}
use agenticops.Cases.Transition.{
  TransitionRequest, transition, journal_row, transition_unless, fresh_transition, record_move,
}
use agenticops.Cases.Legality.{Outcome, transition-Outcome}
use agenticops.Cases.Idempotency.{transition_idempotent}
use agenticops.Cases.Journal.{Accounts, run, run-Accounts, follow}
use agenticops.Cases.Closing.{IsClosedRight, transition-IsClosedRight, terminal_absorbs}
use agenticops.Cases.Graph.{◌⟶◌, ◌⟶*◌, nonterminal_has_exits}

abbrev triaged_case : CaseRecord
triaged_case = record {
  id = 7;
  status = triaged;
  current_phase = "triaged";
  last_activity_at = 100;
  closed_at = none;
}

abbrev resolved_case : CaseRecord
resolved_case = record {
  id = 8;
  status = resolved;
  current_phase = "verified";
  last_activity_at = 90;
  closed_at = some 90;
}

abbrev case_db : CaseDb
case_db = record {
  cases = triaged_case ∷ resolved_case ∷ [];
  transitions = [];
  timeline = [];
  metrics = [];
}

abbrev request_to : ℕ → CaseStatus → TransitionRequest
request_to case_id to_state = record {
  case_id = case_id;
  to_state = to_state;
  trigger_type = "graph";
  reason = "evidence is needed";
  idempotency_key = "graph:1:evidence";
  graph_run_id = none;
  trigger_id = none;
  agent_run_id = none;
  task_id = none;
  evidence_ids = [];
  correlation_id = "c-1";
  expected_from = none;
  phase = none;
}

abbrev one_case : CaseDb
one_case = record { cases = triaged_case ∷ []; transitions = []; timeline = []; metrics = [] }

one_case-Accounts : Accounts (λ _. triaged) one_case
unfolding find_case find? has_id follow
one_case-Accounts = record { at = λ i c h. ground arith }

run-Accounts_example :
    Accounts
      (λ _. triaged)
      (run one_case ((200, request_to 7 evidence_collecting) ∷ (300, request_to 7 failed) ∷ []))
run-Accounts_example =
    run-Accounts (λ _. triaged) one_case
      ((200, request_to 7 evidence_collecting) ∷ (300, request_to 7 failed) ∷ []) one_case-Accounts

transition-Outcome_example : Outcome 200 (request_to 7 evidence_collecting) case_db
transition-Outcome_example = transition-Outcome 200 (request_to 7 evidence_collecting) case_db

missing_case :
    (transition 200 (request_to 9 failed) case_db).0 ≡ err (lookup_error "case not found")
unfolding transition fresh_transition transition_unless find_case find?
missing_case = refl

moves_to_evidence :
    (transition 200 (request_to 7 evidence_collecting) case_db).0
    ≡ ok (journal_row triaged (request_to 7 evidence_collecting))
unfolding transition fresh_transition transition_unless find_case find? record_move journal_row
    status_eq status_mem allowed append
moves_to_evidence = refl

transition_idempotent_example :
    transition 900
      (request_to 7 failed)
      (transition 200 (request_to 7 evidence_collecting) case_db).1
    ≡ (
      ok (journal_row triaged (request_to 7 evidence_collecting)),
      (transition 200 (request_to 7 evidence_collecting) case_db).1,
    )
transition_idempotent_example =
    transition_idempotent 200 900 (request_to 7 evidence_collecting) (request_to 7 failed) case_db
      (journal_row triaged (request_to 7 evidence_collecting)) refl moves_to_evidence

resolved_found : find_case 8 case_db ≡ some resolved_case
unfolding find_case find? has_id
resolved_found = refl

resolved_terminal : is_terminal resolved ≡ true
unfolding is_terminal
resolved_terminal = refl

triaged_open : is_terminal triaged ≡ false
unfolding is_terminal
triaged_open = refl

terminal_absorbs_example :
    (c : CaseRecord) × (find_case 8 (transition 200 (request_to 8 triaged) case_db).1 ≡ some c)
    × (c.status ≡ resolved)
terminal_absorbs_example =
    terminal_absorbs 200 (request_to 8 triaged) case_db 8 resolved_case resolved_found
      resolved_terminal

transition-IsClosedRight_example :
    All IsClosedRight (transition 200 (request_to 7 escalated) case_db).1.cases
unfolding is_terminal
transition-IsClosedRight_example =
    transition-IsClosedRight 200 (request_to 7 escalated) case_db (refl, (refl, tt))

nonterminal_has_exits_example : (triaged ⟶* resolved) × (triaged ⟶ escalated) × (triaged ⟶ failed)
nonterminal_has_exits_example = nonterminal_has_exits triaged triaged_open
