-- ===== src/Verifications/Round.antt =====
-- `VerificationService.evaluate`: a round of the checks of a run.
use agenticops.Prelude.{
  ℕ, ◌+◌, Option, none, some, List, [], ◌∷◌, ◌++◌, map, length, ◌==◌, find?, update_first,
  if◌then◌else◌,
}
use agenticops.Prelude.Exec.{
  Exec, key_error, lookup_error, pure, gets, modify, some_or, ◌>>=◌, ◌>>◌,
}
use agenticops.Tools.Registry.{Python}
use agenticops.Verifications.Checks.{Adapters, evaluate_check}
use agenticops.Verifications.Store.{
  CheckDefinition, VerificationPolicy, inconclusive, CheckResult, found, VerificationRun,
  BaselineSnapshot, VerificationDb, is_run, is_final,
}
use agenticops.Verifications.Evaluate.{
  Call, of_check, baselines_of, overall, concluded, check_row, with_execution, apply_case_state,
  announce_verdict,
}

-- `view`: the run and the results of the round.
pub record View : Type 0 where
  pub run : VerificationRun
  pub checks : List CheckResult

unfoldable pub pair_checked :
    BaselineSnapshot
    → CheckResult
    → Option (List (BaselineSnapshot × CheckResult))
    → Option (List (BaselineSnapshot × CheckResult))
pair_checked b r none = none
pair_checked b r (some rest) = some ((b, r) ∷ rest)

module _ (py : Python) (ask : Adapters) where
  unfoldable pub check_with :
      CheckDefinition
      → ℕ
      → VerificationPolicy
      → Option BaselineSnapshot
      → Option (List (BaselineSnapshot × CheckResult))
      → Option (List (BaselineSnapshot × CheckResult))
  unfolding evaluate_check pair_checked
  check_with d n policy none rest = none
  check_with d n policy (some b) rest = pair_checked b (evaluate_check py ask d b n policy) rest

  -- The results of all checks; nothing if a check has no baseline, a `KeyError`.
  unfoldable pub results :
      VerificationPolicy
      → ℕ
      → List BaselineSnapshot
      → List CheckDefinition
      → Option (List (BaselineSnapshot × CheckResult))
  unfolding check_with of_check
  results policy n bs [] = some []
  results policy n bs (d ∷ ds) =
      check_with d n policy (find? (of_check d.check_id) bs) (results policy n bs ds)

  set_run : VerificationRun → Exec VerificationDb Unit
  unfolding is_run
  set_run run = modify (λ db. record db { runs = update_first (is_run run.id) (λ _. run) db.runs })

  -- The rows of a round, the verdict, and what follows from it.
  unfoldable pub conclude :
      Call → VerificationRun → List (BaselineSnapshot × CheckResult) → Exec VerificationDb View
  unfolding set_run overall concluded check_row apply_case_state announce_verdict
  conclude call run pairs =
      let v = overall (map (λ p. p.1) pairs) in
      let run' = concluded call.now v run in
      do
        modify (λ db. record db {
          checks = db.checks ++ map (λ p. check_row run (run.rounds_completed + 1) p.0 p.1) pairs;
        })
        set_run run'
        _ ← apply_case_state call run' v
        announce_verdict call run' v
        pure (record { run = run'; checks = map (λ p. p.1) pairs })

  incomplete : Call → VerificationRun → VerificationRun
  incomplete call run = record run {
    status = found inconclusive;
    verdict_reason = some "baseline incomplete";
    finished_at = some call.now;
  }

  unfoldable pub evaluate_round : Call → VerificationRun → Exec VerificationDb View
  unfolding conclude results baselines_of set_run incomplete
  evaluate_round call run db =
      let bs = baselines_of run.id db in
      if length bs == length run.policy.checks
      then (do
        set_run run
        pairs ←
            some_or (results run.policy (run.rounds_completed + 1) bs run.policy.checks)
              (key_error "check_id")
        conclude call run pairs)
          db
      else (do
        set_run (incomplete call run)
        pure (record { run = incomplete call run; checks = [] }))
          db

  -- `evaluate(db, run, execution_run_id=...)`
  unfoldable pub evaluate : Call → ℕ → Option ℕ → Exec VerificationDb View
  unfolding evaluate_round with_execution is_run is_final
  evaluate call run_id execution_run_id = do
    row ← gets (λ db. find? (is_run run_id) db.runs)
    run ← some_or row (lookup_error "No row was found")
    if is_final run.status
        then pure (record { run = run; checks = [] })
        else evaluate_round call (with_execution execution_run_id run)
