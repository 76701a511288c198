-- ===== src/Verifications/Evaluate.antt =====
-- `VerificationService.evaluate` and `_apply_case_state`.
use agenticops.Prelude.{
  ℕ, ◌+◌, String, Bool, not, ◌&&◌, Option, none, some, List, [], ◌∷◌, ◌++◌, ◌==◌, find?,
  update_first, where_all, any, all, str_eq, str, format, is_some, if◌then◌else◌,
}
use agenticops.Prelude.Exec.{Exec, type_error, pure, gets, modify, some_or, zoom, ◌>>=◌, ◌>>◌}
use agenticops.Prelude.Json.{text, num, end, field}
use agenticops.Cases.Status.{CaseStatus}
use agenticops.Cases.Store.{CaseStateTransition, find_case}
use agenticops.Cases.Transition as CaseTransition
use agenticops.Webhooks.Enqueue.{enqueue}
use agenticops.Policy.Guard.{ExecutionRunStatus}
use agenticops.Verifications.Store.{
  Verdict, verified, pending, regressed, inconclusive, verdict_eq, CheckResult, found,
  VerificationRun, BaselineSnapshot, VerificationCheck, ExecutionRow, VerificationDb, is_execution,
  is_verified, verdict_text,
}

-- What a call draws: the time, the uuids of the transition and of the outbox event.
pub record Call : Type 0 where
  pub now : ℕ
  pub correlation_id : String
  pub event_id : String

unfoldable pub of_check : String → BaselineSnapshot → Bool
of_check id b = str_eq b.check_id id

-- `{row.check_id: row for row in rows}`
unfoldable pub by_check : List BaselineSnapshot → List BaselineSnapshot → List BaselineSnapshot
unfolding of_check
by_check [] acc = acc
by_check (b ∷ bs) acc =
    let replaced = update_first (of_check b.check_id) (λ _. b) acc in
    by_check bs (if is_some (find? (of_check b.check_id) acc) then replaced else acc ++ b ∷ [])

unfoldable pub baselines_of : ℕ → VerificationDb → List BaselineSnapshot
unfolding by_check where_all
baselines_of run_id db = by_check (where_all (λ b. b.verification_run_id == run_id) db.baselines) []

unfoldable pub has_verdict : Verdict → CheckResult → Bool
has_verdict v r = verdict_eq r.verdict v

-- The verdict of a round, in the order of the code's tests on the set of verdicts.
unfoldable pub overall : List CheckResult → Verdict
unfolding has_verdict any all
overall [] = pending
overall (r ∷ rs) =
    if all (has_verdict verified) (r ∷ rs)
    then verified
    else if any (has_verdict regressed) (r ∷ rs)
    then regressed
    else if any (has_verdict inconclusive) (r ∷ rs)
    then inconclusive
    else pending

unfoldable pub reason_of : Verdict → String
reason_of verified = "all checks matched the same target and recovered"
reason_of regressed = "one or more target signals regressed"
reason_of inconclusive = "source unavailable, stale, or target mismatch"
reason_of pending = "recovery condition not met; another round is scheduled"

-- The writes to the run after a round.
unfoldable pub concluded : ℕ → Verdict → VerificationRun → VerificationRun
unfolding reason_of
concluded now pending r = record r {
  rounds_completed = r.rounds_completed + 1;
  status = found pending;
  next_check_at = some (now + r.policy.interval_seconds);
  verdict_reason = some (reason_of pending);
}
concluded now v r = record r {
  rounds_completed = r.rounds_completed + 1;
  status = found v;
  finished_at = some now;
  verdict_reason = some (reason_of v);
}

unfoldable pub check_row : VerificationRun → ℕ → BaselineSnapshot → CheckResult → VerificationCheck
check_row run round_number b r = record {
  verification_run_id = run.id;
  baseline_snapshot_id = b.id;
  check_id = r.check_id;
  round_number = round_number;
  verdict = r.verdict;
  freshness_seconds = r.freshness_seconds;
  reason = r.reason;
}

unfoldable pub with_execution : Option ℕ → VerificationRun → VerificationRun
with_execution none r = r
with_execution (some n) r = if n == 0 then r else record r { execution_run_id = some n }

-- Another run of the same job that is not verified.
unfoldable pub sibling_open : VerificationRun → VerificationRun → Bool
sibling_open run r =
    (r.execution_job_id == run.execution_job_id)
    && (not (r.id == run.id) && not (is_verified r.status))

unfoldable pub target_state : Verdict → Bool → CaseStatus
target_state verified remaining = if remaining then CaseStatus.verifying else CaseStatus.resolved
target_state regressed remaining = CaseStatus.escalated
target_state _ remaining = CaseStatus.verifying

target_phase : Verdict → Bool → String
unfolding format verdict_text
target_phase verified remaining = if remaining then "verification_pending_siblings" else "verified"
target_phase regressed remaining = "verification_regressed"
target_phase v remaining = format ("verification_" ∷ verdict_text v ∷ [])

-- The writes to the execution.
unfoldable pub marked : ℕ → Verdict → ExecutionRow → ExecutionRow
marked now verified e = record e { status = ExecutionRunStatus.verified; verified_at = some now }
marked now regressed e = record e { status = ExecutionRunStatus.failed }
marked now _ e = record e { status = ExecutionRunStatus.verifying }

mark_execution : ℕ → Verdict → Option ℕ → Exec VerificationDb Unit
unfolding marked is_execution
mark_execution now v none = pure tt
mark_execution now v (some n) =
    modify
      (λ db. record db { executions = update_first (is_execution n) (marked now v) db.executions })

unfoldable pub case_request :
    Call → VerificationRun → Verdict → Bool → CaseTransition.TransitionRequest
unfolding target_state target_phase format str verdict_text
case_request call run v remaining = record {
  case_id = run.case_id;
  to_state = target_state v remaining;
  trigger_type = "verification";
  reason = format ("verification verdict: " ∷ verdict_text v ∷ []);
  idempotency_key = format (
      "verification-state:"
      ∷ str run.id
      ∷ ":"
      ∷ verdict_text v
      ∷ ":"
      ∷ str run.rounds_completed
      ∷ []);
  graph_run_id = none;
  trigger_id = some (str run.id);
  agent_run_id = none;
  task_id = none;
  evidence_ids = [];
  correlation_id = call.correlation_id;
  expected_from = none;
  phase = some (target_phase v remaining);
}

-- `_apply_case_state`, for a run with the verdict
unfoldable pub apply_case_state :
    Call → VerificationRun → Verdict → Exec VerificationDb CaseStateTransition
unfolding mark_execution case_request sibling_open any
apply_case_state call run v = do
  case_ ← gets (λ db. find_case run.case_id db.cases)
  remaining ← gets (λ db. any (sibling_open run) db.runs)
  mark_execution call.now v run.execution_run_id
  _ ← some_or case_ (type_error "'NoneType' object has no attribute 'id'")
  zoom (λ db. db.cases) (λ cs db. record db { cases = cs })
      (CaseTransition.transition call.now (case_request call run v remaining))

unfoldable pub announce_verdict : Call → VerificationRun → Verdict → Exec VerificationDb Unit
unfolding enqueue format verdict_text str
announce_verdict call run v = modify (λ db. record db {
  webhooks =
      enqueue call.now
        (record {
          event_id = call.event_id;
          event_type = format ("verification." ∷ verdict_text v ∷ []);
          aggregate_type = "verification_run";
          aggregate_id = str run.id;
          payload = field "verification_run_id" (num run.id) (
              field "execution_job_id" (num run.execution_job_id) (
                field "case_id" (num run.case_id) (
                  field "status" (text (verdict_text v)) (
                    field "round" (num run.rounds_completed)
                      (field "reason" (text (reason_of v)) end)))));
          endpoint_ids = none;
        })
        db.webhooks;
})
