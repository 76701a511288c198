-- ===== src/Verifications/Verdicts.antt =====
-- What a verdict means for the run, its execution and its case.
use agenticops.Prelude.{
  ℕ, ◌≤◌, ◌≡◌, ◌≢◌, refl, ◌↔◌, inl, inr, true, ◌||◌, Option, some, List, [], ◌∷◌, map, arith, any,
  all, All, same→eq, same_refl, Option-cases, find?, length,
}
use agenticops.Verifications.Store.{
  Verdict, verified, pending, regressed, inconclusive, verdict_eq, CheckKind, zabbix_alert_absent,
  elk_count_reduced, CheckDefinition, VerificationPolicy, BaselineSnapshot, CheckResult,
  VerificationRun, VerificationDb, is_run, is_final, Verdict-discrete,
}
use agenticops.Prelude.Exec.{ok}
use agenticops.Tools.Registry.{Python}
use agenticops.Verifications.Checks.{
  Adapters, Response, rows, unavailable, verdict_of, inconclusive_result, zabbix_result, elk_result,
  check_of_kind, evaluate_check,
}
use agenticops.Verifications.Round.{results, pair_checked, check_with, evaluate}
use agenticops.Verifications.Evaluate.{Call, of_check, has_verdict, overall}

verdict_eq_iff : (v w : Verdict) → (verdict_eq v w ≡ true) ↔ (v ≡ w)
unfolding verdict_eq
verdict_eq_iff v w = (same→eq Verdict-discrete v w, λ e. rw e (same_refl Verdict-discrete w))

all_verified_iff :
    (rs : List CheckResult)
    → (all (has_verdict verified) rs ≡ true) ↔ All (λ r. r.verdict ≡ verified) rs
unfolding all has_verdict
all_verified_iff [] = (λ _. tt, λ _. refl)
all_verified_iff (r ∷ rs) =
    let rest = all_verified_iff rs in
    let own = verdict_eq_iff r.verdict verified in
    (λ h. (own.0 (ground arith), rest.0 (ground arith)), λ h. ground (arith, own.1 h.0, rest.1 h.1))

-- A round of at least one check is verified exactly when every check is.
pub overall_verified_iff :
    (r : CheckResult) (rs : List CheckResult)
    → (overall (r ∷ rs) ≡ verified) ↔ All (λ x. x.verdict ≡ verified) (r ∷ rs)
unfolding overall
overall_verified_iff r rs =
    let every = all_verified_iff (r ∷ rs) in
    (λ h. every.0 (ground (arith, h)), λ h. ground (arith, every.1 h))

verdict_known :
    (v : Verdict)
    → v ≢ pending
    → (verdict_eq v verified || (verdict_eq v regressed || verdict_eq v inconclusive)) ≡ true
unfolding verdict_eq
verdict_known verified h = refl
verdict_known regressed h = refl
verdict_known inconclusive h = refl
verdict_known pending h = absurd (h refl)

decided_any :
    (rs : List CheckResult)
    → All (λ r. r.verdict ≢ pending) rs
    → (all (has_verdict verified) rs
        || (any (has_verdict regressed) rs || any (has_verdict inconclusive) rs))
      ≡ true
unfolding all any has_verdict
decided_any [] h = refl
decided_any (r ∷ rs) h = ground (arith, verdict_known r.verdict h.0, decided_any rs h.1)

overall_decided :
    (r : CheckResult) (rs : List CheckResult)
    → All (λ x. x.verdict ≢ pending) (r ∷ rs)
    → overall (r ∷ rs) ≢ pending
unfolding overall
overall_decided r rs h e = ground (arith, decided_any (r ∷ rs) h)

module _ (py : Python) (ask : Adapters) where
  last_round_zabbix :
      (d : CheckDefinition) (n : ℕ) (policy : VerificationPolicy) (answer : Response _)
      → policy.max_rounds ≤ n
      → (zabbix_result py ask d n policy answer).verdict ≢ pending
  unfolding zabbix_result inconclusive_result verdict_of
  last_round_zabbix d n policy (unavailable e) h eq = ground arith
  last_round_zabbix d n policy (rows alerts) h eq = ground arith

  last_round_elk :
      (d : CheckDefinition) (b : BaselineSnapshot) (n : ℕ) (policy : VerificationPolicy)
      (answer : Response ℕ)
      → policy.max_rounds ≤ n
      → (elk_result py ask d b n policy answer).verdict ≢ pending
  unfolding elk_result inconclusive_result verdict_of
  last_round_elk d b n policy (unavailable e) h eq = ground arith
  last_round_elk d b n policy (rows current) h eq = ground arith

  last_round_check :
      (k : CheckKind) (d : CheckDefinition) (b : BaselineSnapshot) (n : ℕ)
      (policy : VerificationPolicy)
      → policy.max_rounds ≤ n
      → (check_of_kind py ask k d b n policy).verdict ≢ pending
  unfolding check_of_kind
  last_round_check zabbix_alert_absent d b n policy h = last_round_zabbix d n policy _ h
  last_round_check elk_count_reduced d b n policy h = last_round_elk d b n policy _ h

  last_round_results :
      (policy : VerificationPolicy) (n : ℕ) (bs : List BaselineSnapshot) (ds : List CheckDefinition)
      (pairs : List (BaselineSnapshot × CheckResult))
      → policy.max_rounds ≤ n
      → results py ask policy n bs ds ≡ some pairs
      → All (λ r. r.verdict ≢ pending) (map (λ p. p.1) pairs)
  unfolding results check_with pair_checked evaluate_check
  last_round_results policy n bs [] pairs h e =
      let none_left : pairs ≡ [] = ground arith in rw none_left tt
  last_round_results policy n bs (d ∷ ds) pairs h e =
      elim (Option-cases (find? (of_check d.check_id) bs)) [
        | inl missing ↦ absurd (ground arith)
        | inr (b, based) ↦ elim (Option-cases (results py ask policy n bs ds)) [
          | inl fails ↦ absurd (ground arith)
          | inr (rest, ok_) ↦
              let first = last_round_check d.kind d b n policy h in
              let others = last_round_results policy n bs ds rest h ok_ in
              let same : (b, evaluate_check py ask d b n policy) ∷ rest ≡ pairs =
                ground (arith, e) in
              rw (← same) (first, others)
        ]
      ]

  decided_pairs :
      (pairs : List (BaselineSnapshot × CheckResult))
      → All (λ r. r.verdict ≢ pending) (map (λ p. p.1) pairs)
      → 1 ≤ length pairs
      → overall (map (λ p. p.1) pairs) ≢ pending
  decided_pairs [] h n = absurd (omega (arith, n))
  decided_pairs (p ∷ ps) h n = overall_decided p.1 (map (λ q. q.1) ps) h

  -- In a round whose number is the limit of the policy or more, where every check has its
  -- baseline and there is one check at least, the overall verdict is not pending, whatever the
  -- monitoring answers.
  pub last_round_decides :
      (policy : VerificationPolicy) (n : ℕ) (bs : List BaselineSnapshot)
      (pairs : List (BaselineSnapshot × CheckResult))
      → policy.max_rounds ≤ n
      → results py ask policy n bs policy.checks ≡ some pairs
      → 1 ≤ length pairs
      → overall (map (λ p. p.1) pairs) ≢ pending
  last_round_decides policy n bs pairs h e k =
      decided_pairs pairs (last_round_results policy n bs policy.checks pairs h e) k

  -- A run that is verified or regressed is never evaluated again: the call changes nothing.
  pub evaluate_final :
      (call : Call) (run_id : ℕ) (execution_run_id : Option ℕ) (run : VerificationRun)
      (db : VerificationDb)
      → find? (is_run run_id) db.runs ≡ some run
      → is_final run.status ≡ true
      → evaluate py ask call run_id execution_run_id db
        ≡ (ok (record { run = run; checks = [] }), db)
  unfolding evaluate
  evaluate_final call run_id execution_run_id run db listed final = ground arith
