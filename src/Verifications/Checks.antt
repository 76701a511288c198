-- ===== src/Verifications/Checks.antt =====
-- `_evaluate_check`: one check of a round, against what the monitoring adapters answer. What was
-- observed is not kept with the result.
use agenticops.Prelude.{
  ℕ, ◌+◌, ◌*◌, String, Bool, true, false, ◌&&◌, ◌||◌, Option, some, List, [], ◌∷◌, leb, where_all,
  str_eq, lower, contains_text, take_text, truthy, text_or, if◌then◌else◌, or_else,
}
use agenticops.Prelude.Json.{Json, Fields, text, get_or_null, or_value, truth, int_of}
use agenticops.Tools.Registry.{Python, str_of}
use agenticops.Verifications.Store.{
  CheckKind, zabbix_alert_absent, elk_count_reduced, CheckDefinition, VerificationPolicy, Verdict,
  verified, pending, regressed, inconclusive, CheckResult, BaselineSnapshot,
}

-- What an adapter returns: its rows, or the error of a response without success.
pub data Response (A : Type 0) : Type 0 where
  rows : A → Response A
  unavailable : Option String → Response A

-- `zabbix_adapter.get_recent_alerts` by host, `elk_adapter.collect_logs` by query and time range;
-- of the logs only their number is read.
pub record Adapters : Type 0 where
  pub get_recent_alerts : String → Response (List Fields)
  pub collect_logs : String → String → Response ℕ

-- `str(d.get(key) or "")`
value_text : Python → Json → String
unfolding str_of truth
value_text py v = if truth v then str_of py v else ""

unfoldable pub alert_id : Python → Fields → String
unfolding value_text or_value get_or_null
alert_id py alert = value_text py (
    or_value (or_value (get_or_null "eventid" alert) (get_or_null "event_id" alert))
      (get_or_null "objectid" alert))

alert_name : Python → Fields → String
unfolding value_text or_value get_or_null lower
alert_name py alert =
    lower (value_text py (or_value (get_or_null "name" alert) (get_or_null "description" alert)))

unfoldable pub is_match : Python → String → String → Fields → Bool
unfolding alert_id alert_name contains_text
is_match py event_id name alert =
    (truthy (some event_id) && str_eq (alert_id py alert) event_id)
    || (truthy (some name) && contains_text name (alert_name py alert))

unfoldable pub matching_zabbix_alerts : Python → List Fields → Fields → List Fields
unfolding is_match value_text get_or_null lower
matching_zabbix_alerts py alerts target =
    where_all
      (is_match py (value_text py (get_or_null "event_id" target))
        (lower (value_text py (get_or_null "name_contains" target))))
      alerts

-- A condition that is not met is pending until the last round, and a regression then.
unfoldable pub verdict_of : Bool → ℕ → ℕ → Verdict
verdict_of met round_number max_rounds =
    if met then verified else if leb max_rounds round_number then regressed else pending

unfoldable pub no_rows : List Fields → Bool
no_rows [] = true
no_rows (_ ∷ _) = false

-- `_inconclusive`
unfoldable pub inconclusive_result : CheckDefinition → String → CheckResult
inconclusive_result d reason = record {
  check_id = d.check_id;
  verdict = inconclusive;
  freshness_seconds = d.max_age_seconds + 1;
  reason = take_text 500 reason;
}

-- `int((baseline.value or {}).get("count") or 0)`
baseline_count : BaselineSnapshot → ℕ
unfolding int_of get_or_null
baseline_count b = or_else (int_of (get_or_null "count" b.value)) 0

module _ (py : Python) (ask : Adapters) where
  unfoldable pub zabbix_result :
      CheckDefinition → ℕ → VerificationPolicy → Response (List Fields) → CheckResult
  unfolding inconclusive_result matching_zabbix_alerts verdict_of no_rows
  zabbix_result d round_number policy (unavailable error) =
      inconclusive_result d (text_or error "zabbix unavailable")
  zabbix_result d round_number policy (rows alerts) =
      let absent = no_rows (matching_zabbix_alerts py alerts d.target) in
      record {
        check_id = d.check_id;
        verdict = verdict_of absent round_number policy.max_rounds;
        freshness_seconds = 0;
        reason = if absent then "originating alert absent" else "originating alert still present";
      }

  unfoldable pub elk_result :
      CheckDefinition → BaselineSnapshot → ℕ → VerificationPolicy → Response ℕ → CheckResult
  unfolding inconclusive_result verdict_of baseline_count
  elk_result d b round_number policy (unavailable error) =
      inconclusive_result d (text_or error "ELK unavailable")
  elk_result d b round_number policy (rows current) =
      let reduced = leb (current * d.ratio_den) (baseline_count b * d.ratio_num) in
      record {
        check_id = d.check_id;
        verdict = verdict_of reduced round_number policy.max_rounds;
        freshness_seconds = 0;
        reason = if reduced then "log count reduced" else "log count remains above threshold";
      }

  unfoldable pub check_of_kind :
      CheckKind → CheckDefinition → BaselineSnapshot → ℕ → VerificationPolicy → CheckResult
  unfolding zabbix_result elk_result str_of get_or_null or_value
  check_of_kind zabbix_alert_absent d b round_number policy =
      zabbix_result d round_number policy
        (ask.get_recent_alerts (str_of py (get_or_null "host" d.target)))
  check_of_kind elk_count_reduced d b round_number policy = elk_result d b round_number policy (
      ask.collect_logs (str_of py (get_or_null "query" d.target))
        (str_of py (or_value (get_or_null "time_range" d.target) (text "-15m,now"))))

  -- `_evaluate_check`
  unfoldable pub evaluate_check :
      CheckDefinition → BaselineSnapshot → ℕ → VerificationPolicy → CheckResult
  unfolding check_of_kind
  evaluate_check d b round_number policy = check_of_kind d.kind d b round_number policy
