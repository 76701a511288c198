-- ===== src/Verifications/Immediate.antt =====
-- A verdict that comes while the case is still executing.
use agenticops.Prelude.{
  ℕ, ◌≡◌, refl, ◌∙◌, ap, false, Option-cases, inl, inr, none, some, any, find?,
}
use agenticops.Prelude.Exec.{err, invalid_case_transition}
use agenticops.Cases.Status.{CaseStatus, value, allowed, status_eq, status_mem, CaseStatus-discrete}
use agenticops.Cases.Store.{CaseRecord, CaseDb, find_case}
use agenticops.Cases.Transition.{
  TransitionRequest, has_key, may_move, expectation_met, transition, transition_unless,
  fresh_transition,
}
use agenticops.Verifications.Store.{verified, VerificationRun, VerificationDb}
use agenticops.Verifications.Evaluate.{
  Call, sibling_open, case_request, apply_case_state, target_state,
}

executing_stuck :
    (s : CaseStatus) → s ≡ CaseStatus.executing → may_move s CaseStatus.resolved ≡ false
unfolding may_move allowed status_eq status_mem CaseStatus-discrete
executing_stuck s h = rw h refl

refused :
    (now : ℕ) (q : TransitionRequest) (c : CaseRecord) (cs : CaseDb)
    → find? (has_key q.idempotency_key) cs.transitions ≡ none
    → find_case q.case_id cs ≡ some c
    → c.status ≡ CaseStatus.executing
    → q.to_state ≡ CaseStatus.resolved
    → q.expected_from ≡ none
    → (transition now q cs).0 ≡ err (invalid_case_transition (value c.status))
unfolding transition transition_unless fresh_transition expectation_met
refused now q c cs fresh found at_work goal free =
    let stuck : may_move c.status q.to_state ≡ false = rw goal (executing_stuck c.status at_work) in
    rw (fresh, found, free, stuck) refl

-- If a case is executing, a run of it has no open sibling, and the key of the transition is new,
-- then the effect of the verdict verified raises, since the table does not lead from executing
-- to resolved.
pub verified_while_executing :
    (call : Call) (run : VerificationRun) (c : CaseRecord) (db : VerificationDb)
    → find_case run.case_id db.cases ≡ some c
    → c.status ≡ CaseStatus.executing
    → any (sibling_open run) db.runs ≡ false
    → find? (has_key (case_request call run verified false).idempotency_key) db.cases.transitions
      ≡ none
    → (apply_case_state call run verified db).0 ≡ err (invalid_case_transition "executing")
unfolding apply_case_state case_request target_state value
verified_while_executing call run c db found at_work alone fresh =
    let stopped =
      refused call.now (case_request call run verified false) c db.cases fresh found at_work refl
        refl
      ∙ ap (λ s. err (invalid_case_transition (value s))) at_work in
    elim (Option-cases run.execution_run_id) [
      | inl e ↦ rw (e, found, alone) stopped
      | inr (n, e) ↦ rw (e, found, alone) stopped
    ]
