-- ===== src/Verifications/Baseline.antt =====
-- `BaselineService.capture`: the state of the monitored targets before an action. The time and the
-- target's key of a snapshot are not kept.
use agenticops.Prelude.{
  ℕ, ◌+◌, String, none, some, List, [], ◌∷◌, if◌then◌else◌, format, text_or, take_text, length,
}
use agenticops.Prelude.Json.{
  Items, Fields, text, num, arr, nil, cons, end, field, get_or_null, or_value,
}
use agenticops.Tools.Registry.{Python, str_of}
use agenticops.Verifications.Checks.{
  Adapters, Response, rows, unavailable, matching_zabbix_alerts, no_rows, alert_id,
}
use agenticops.Verifications.Store.{
  CheckKind, zabbix_alert_absent, elk_count_reduced, CheckDefinition, VerificationPolicy,
  baseline_collecting, baseline_failed, baseline_ready, VerificationRun, BaselineSnapshot,
}

unfoldable pub alert_ids : Python → List Fields → Items
unfolding alert_id
alert_ids py [] = nil
alert_ids py (alert ∷ alerts) = cons (text (alert_id py alert)) (alert_ids py alerts)

-- What `_collect` returns and `capture` makes of it: the value of a snapshot, or the error of the
-- check.
pub data Collected : Type 0 where
  snapshot : Fields → Collected
  refused : String → Collected

module _ (py : Python) (ask : Adapters) where
  unfoldable pub zabbix_collected : CheckDefinition → Response (List Fields) → Collected
  unfolding matching_zabbix_alerts alert_ids no_rows
  zabbix_collected d (unavailable error) = refused (text_or error "zabbix_unavailable")
  zabbix_collected d (rows alerts) =
      let matches = matching_zabbix_alerts py alerts d.target in
      if no_rows matches
      then refused "originating_alert_not_present_in_baseline"
      else snapshot (
          field "total_alerts" (num (length alerts))
            (field "matching_alert_ids" (arr (alert_ids py matches)) end))

  unfoldable pub elk_collected : Response ℕ → Collected
  elk_collected (unavailable error) = refused (text_or error "elk_unavailable")
  elk_collected (rows count) = snapshot (field "count" (num count) end)

  collected_of : CheckKind → CheckDefinition → Collected
  unfolding zabbix_collected elk_collected str_of get_or_null or_value
  collected_of zabbix_alert_absent d =
      zabbix_collected d (ask.get_recent_alerts (str_of py (get_or_null "host" d.target)))
  collected_of elk_count_reduced d = elk_collected (
      ask.collect_logs (str_of py (get_or_null "query" d.target))
        (str_of py (or_value (get_or_null "time_range" d.target) (text "-15m,now"))))

  unfoldable pub collect : CheckDefinition → Collected
  unfolding collected_of
  collect d = collected_of d.kind d

  -- The loop over the checks: the snapshots that are stored, and the errors.
  unfoldable pub capture_one :
      ℕ
      → CheckDefinition
      → Collected
      → List BaselineSnapshot × List String
      → List BaselineSnapshot × List String
  unfolding format
  capture_one run_id d (refused error) (bs, errors) =
      (bs, format (d.check_id ∷ ":" ∷ error ∷ []) ∷ errors)
  capture_one run_id d (snapshot value) (bs, errors) = (
    record { id = 0; verification_run_id = run_id; check_id = d.check_id; value = value } ∷ bs,
    errors,
  )

  unfoldable pub capture_checks : ℕ → List CheckDefinition → List BaselineSnapshot × List String
  unfolding capture_one collect
  capture_checks run_id [] = ([], [])
  capture_checks run_id (d ∷ ds) = capture_one run_id d (collect d) (capture_checks run_id ds)

join_with : String → List String → String
join_with sep [] = ""
join_with sep (s ∷ []) = s
join_with sep (s ∷ t ∷ r) = format (s ∷ sep ∷ join_with sep (t ∷ r) ∷ [])

-- The writes to the run after the checks.
unfoldable pub captured_run : ℕ → List String → VerificationRun → VerificationRun
unfolding join_with take_text
captured_run now [] run = record run { status = baseline_ready }
captured_run now (e ∷ es) run = record run {
  status = baseline_failed;
  verdict_reason = some (take_text 4000 (join_with ";" (e ∷ es)));
  finished_at = some now;
}

-- The snapshots get the identifiers that the database gives out, in order.
unfoldable pub numbered : ℕ → List BaselineSnapshot → List BaselineSnapshot
numbered n [] = []
numbered n (b ∷ bs) = record b { id = n } ∷ numbered (n + 1) bs

unfoldable pub new_run : ℕ → ℕ → ℕ → VerificationPolicy → VerificationRun
new_run id job_id case_id policy = record {
  id = id;
  execution_job_id = job_id;
  execution_run_id = none;
  case_id = case_id;
  policy = policy;
  status = baseline_collecting;
  rounds_completed = 0;
  next_check_at = none;
  verdict_reason = none;
  finished_at = none;
}
