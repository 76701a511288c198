-- ===== src/Verifications/Store.antt =====
-- The policy of a verification, its run, its baselines and the rows it writes.
use agenticops.Prelude.{ℕ, String, Bool, true, false, Option, List, ◌==◌, same}
use agenticops.Prelude.Json.{Fields}
use agenticops.Cases.Store.{CaseDb}
use agenticops.Webhooks.Store.{WebhookDb}
use agenticops.Policy.Guard.{ExecutionRunStatus}

pub data CheckKind : Type 0 where
  zabbix_alert_absent elk_count_reduced : CheckKind

-- `max_ratio` is kept exactly, as `ratio_num / ratio_den`.
pub record CheckDefinition : Type 0 where
  pub check_id : String
  pub kind : CheckKind
  pub target : Fields
  pub max_age_seconds : ℕ
  pub ratio_num : ℕ
  pub ratio_den : ℕ

pub record VerificationPolicy : Type 0 where
  pub checks : List CheckDefinition
  pub max_rounds : ℕ
  pub interval_seconds : ℕ

pub data Verdict : Type 0 where
  verified pending regressed inconclusive : Verdict

unfoldable pub Verdict-discrete : Discrete Verdict
Verdict-discrete = hlevel

unfoldable pub verdict_eq : Verdict → Verdict → Bool
unfolding Verdict-discrete
verdict_eq = same Verdict-discrete

pub record CheckResult : Type 0 where
  pub check_id : String
  pub verdict : Verdict
  pub freshness_seconds : ℕ
  pub reason : String

-- The statuses of a run: those of its baseline and those that an evaluation sets.
pub data RunStatus : Type 0 where
  baseline_collecting baseline_failed baseline_ready checking : RunStatus
  found : Verdict → RunStatus

pub record VerificationRun : Type 0 where
  pub id : ℕ
  pub execution_job_id : ℕ
  pub execution_run_id : Option ℕ
  pub case_id : ℕ
  pub policy : VerificationPolicy
  pub status : RunStatus
  pub rounds_completed : ℕ
  pub next_check_at : Option ℕ
  pub verdict_reason : Option String
  pub finished_at : Option ℕ

pub record BaselineSnapshot : Type 0 where
  pub id : ℕ
  pub verification_run_id : ℕ
  pub check_id : String
  pub value : Fields

pub record VerificationCheck : Type 0 where
  pub verification_run_id : ℕ
  pub baseline_snapshot_id : ℕ
  pub check_id : String
  pub round_number : ℕ
  pub verdict : Verdict
  pub freshness_seconds : ℕ
  pub reason : String

-- What a verification reads and writes of `ExecutionRun`.
pub record ExecutionRow : Type 0 where
  pub id : ℕ
  pub status : ExecutionRunStatus
  pub verified_at : Option ℕ

pub record VerificationDb : Type 0 where
  pub runs : List VerificationRun
  pub baselines : List BaselineSnapshot
  pub checks : List VerificationCheck
  pub executions : List ExecutionRow
  pub cases : CaseDb
  pub webhooks : WebhookDb

unfoldable pub is_run : ℕ → VerificationRun → Bool
is_run n r = r.id == n

unfoldable pub is_execution : ℕ → ExecutionRow → Bool
is_execution n e = e.id == n

unfoldable pub is_verified : RunStatus → Bool
unfolding verdict_eq
is_verified (found v) = verdict_eq v verified
is_verified _ = false

-- `status in {"verified", "regressed"}`
unfoldable pub is_final : RunStatus → Bool
is_final (found verified) = true
is_final (found regressed) = true
is_final _ = false

unfoldable pub verdict_text : Verdict → String
verdict_text verified = "verified"
verdict_text pending = "pending"
verdict_text regressed = "regressed"
verdict_text inconclusive = "inconclusive"
