-- ===== src/Tests/VerificationTests.antt =====
-- A check of the logs in its last round.
use agenticops.Prelude.{◌≡◌, ◌≢◌, refl, arith, false, none, some, [], ◌∷◌, find?}
use agenticops.Prelude.Json.{text, num, end, field}
use agenticops.Tools.Registry.{Python}
use agenticops.Verifications.Store.{
  CheckDefinition, elk_count_reduced, VerificationPolicy, pending, regressed, CheckResult,
  BaselineSnapshot,
}
use agenticops.Verifications.Checks.{Adapters, rows, unavailable}
use agenticops.Verifications.Evaluate.{overall}
use agenticops.Verifications.Round.{results}
use agenticops.Verifications.Verdicts.{last_round_decides}

abbrev python : Python
python = record { show = λ v. ""; search = λ pattern s. false }

abbrev monitoring : Adapters
monitoring = record {
  get_recent_alerts = λ host. unavailable none;
  collect_logs = λ query time_range. rows 90;
}

abbrev log_check : CheckDefinition
log_check = record {
  check_id = "logs";
  kind = elk_count_reduced;
  target = field "query" (text "link down") end;
  max_age_seconds = 300;
  ratio_num = 1;
  ratio_den = 2;
}

abbrev log_policy : VerificationPolicy
log_policy = record { checks = log_check ∷ []; max_rounds = 3; interval_seconds = 60 }

abbrev baseline : BaselineSnapshot
baseline = record {
  id = 1;
  verification_run_id = 1;
  check_id = "logs";
  value = field "count" (num 100) end;
}

abbrev still_failing : CheckResult
still_failing = record {
  check_id = "logs";
  verdict = regressed;
  freshness_seconds = 0;
  reason = "log count remains above threshold";
}

third_round :
    results python monitoring log_policy 3 (baseline ∷ []) (log_check ∷ [])
    ≡ some ((baseline, still_failing) ∷ [])
unfolding results find?
third_round = refl

last_round_decides_example : overall (still_failing ∷ []) ≢ pending
last_round_decides_example =
    last_round_decides python monitoring log_policy 3 (baseline ∷ [])
      ((baseline, still_failing) ∷ []) (omega arith) third_round (omega arith)
