-- ===== src/Budget/Outcomes.antt =====
-- The outcomes of the budget operations, on every branch.
use agenticops.Prelude.{
  ℕ, ◌+◌, ◌≤◌, ◌<◌, String, ◌≡◌, ◌⊎◌, inl, inr, true, some, arith, Bool-cases, Option-cases, find?,
  update_first, update_first_twice, length, ltb, leb,
}
use agenticops.Prelude.Exec.{Error, value_error, lookup_error, budget_exhausted, ok, err}
use agenticops.Budget.Defs.{
  AgentBudget, BudgetDb, Resource, used, limit, charge, of_run, mark_exhausted, consume, known,
  resource_of, clocked, record_runtime, has_target, with_target, register_target,
}

known_resource :
    (name : String) (r : Resource) (n : ℕ)
    → known (resource_of name) n ≡ some r
    → resource_of name ≡ some r
unfolding known
known_resource name r n e = ground arith

-- The outcomes of `consume`: an error that changes nothing, a refusal that marks the budget and
-- leaves its counters, or a charge within the limit.
pub consume_cases :
    (run name : String) (n : ℕ) (db : BudgetDb)
    → ((e : Error) × (consume run name n db ≡ (err e, db)))
      ⊎ ((b : AgentBudget) × (r : Resource) × (find? (of_run run) db.budgets ≡ some b)
          × (limit r b < used r b + n)
          × ((consume run name n db).0 ≡ err (budget_exhausted name))
          × ((consume run name n db).1.budgets
              ≡ update_first (of_run run) (mark_exhausted name) db.budgets))
      ⊎ ((b : AgentBudget) × (r : Resource) × (resource_of name ≡ some r)
          × (find? (of_run run) db.budgets ≡ some b)
          × (used r b + n ≤ limit r b)
          × ((consume run name n db).0 ≡ ok (charge r n b))
          × ((consume run name n db).1.budgets ≡ update_first (of_run run) (charge r n) db.budgets))
unfolding consume
consume_cases run name n db = elim (Option-cases (known (resource_of name) n)) [
  | inl unknown ↦ inl (value_error "invalid budget resource", ground arith)
  | inr (r, e) ↦ elim (Option-cases (find? (of_run run) db.budgets)) [
    | inl missing ↦ inl (lookup_error "No row was found when one was required", ground arith)
    | inr (b, found) ↦ elim (Bool-cases (ltb (limit r b) (used r b + n))) [
      | inl over ↦ inr (inl (b, r, found, ground arith, ground arith, ground arith))
      | inr fits ↦
          inr
            (inr (b, r, known_resource name r n e, found, ground arith, ground arith, ground arith))
    ]
  ]
]

-- The outcomes of `record_runtime`: no budget, the longest time kept, or that and the mark.
pub record_runtime_cases :
    (run : String) (elapsed : ℕ) (db : BudgetDb)
    → ((e : Error) × (record_runtime run elapsed db ≡ (err e, db)))
      ⊎ ((b : AgentBudget) × (find? (of_run run) db.budgets ≡ some b)
          × (b.max_runtime_seconds < (clocked elapsed b).used_runtime_seconds)
          × ((record_runtime run elapsed db).0 ≡ err (budget_exhausted "runtime_seconds"))
          × ((record_runtime run elapsed db).1.budgets
              ≡ update_first
                  (of_run run)
                  (λ x. mark_exhausted "runtime_seconds" (clocked elapsed x))
                  db.budgets))
      ⊎ ((b : AgentBudget) × (find? (of_run run) db.budgets ≡ some b)
          × ((clocked elapsed b).used_runtime_seconds ≤ b.max_runtime_seconds)
          × ((record_runtime run elapsed db).0 ≡ ok (clocked elapsed b))
          × ((record_runtime run elapsed db).1.budgets
              ≡ update_first (of_run run) (clocked elapsed) db.budgets))
unfolding record_runtime
record_runtime_cases run elapsed db = elim (Option-cases (find? (of_run run) db.budgets)) [
  | inl missing ↦ inl (lookup_error "No row was found when one was required", ground arith)
  | inr (b, found) ↦
      elim (Bool-cases (ltb b.max_runtime_seconds (clocked elapsed b).used_runtime_seconds)) [
        | inl over ↦ inr (
            inl (
              b,
              found,
              ground arith,
              ground arith,
              ground (
                arith,
                update_first_twice (of_run run) (clocked elapsed) (mark_exhausted "runtime_seconds")
                    db.budgets (λ x h. h),
              ),
            ))
        | inr fits ↦ inr (inr (b, found, ground arith, ground arith, ground arith))
      ]
]

-- The outcomes of `register_target`: no budget, a device that is there already, a refusal that
-- marks the budget, or one more device.
pub register_target_cases :
    (run : String) (d : ℕ) (db : BudgetDb)
    → ((e : Error) × (register_target run d db ≡ (err e, db)))
      ⊎ ((b : AgentBudget) × (has_target d b.target_device_ids ≡ true)
          × (register_target run d db ≡ (ok b, db)))
      ⊎ ((b : AgentBudget) × (find? (of_run run) db.budgets ≡ some b)
          × (b.max_target_devices ≤ length b.target_device_ids)
          × ((register_target run d db).0 ≡ err (budget_exhausted "target_devices"))
          × ((register_target run d db).1.budgets
              ≡ update_first (of_run run) (mark_exhausted "target_devices") db.budgets))
      ⊎ ((b : AgentBudget) × (find? (of_run run) db.budgets ≡ some b)
          × (length b.target_device_ids < b.max_target_devices)
          × ((register_target run d db).0 ≡ ok (with_target d b))
          × ((register_target run d db).1.budgets
              ≡ update_first (of_run run) (with_target d) db.budgets))
unfolding register_target
register_target_cases run d db = elim (Option-cases (find? (of_run run) db.budgets)) [
  | inl missing ↦ inl (lookup_error "No row was found when one was required", ground arith)
  | inr (b, found) ↦ elim (Bool-cases (has_target d b.target_device_ids)) [
    | inl there ↦ inr (inl (b, there, ground arith))
    | inr absent ↦ elim (Bool-cases (leb b.max_target_devices (length b.target_device_ids))) [
      | inl full ↦ inr (inr (inl (b, found, ground arith, ground arith, ground arith)))
      | inr room ↦ inr (inr (inr (b, found, ground arith, ground arith, ground arith)))
    ]
  ]
]
