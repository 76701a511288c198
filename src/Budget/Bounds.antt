-- ===== src/Budget/Bounds.antt =====
-- Proofs about the limits of a budget.
use agenticops.Prelude.{
  ℕ, ◌+◌, ◌≤◌, ◌<◌, String, ◌≡◌, inl, inr, true, [], ◌∷◌, arith, All, All-update_found, All-found,
  length, length-append,
}
use agenticops.Budget.Defs.{
  AgentBudget, BudgetDb, Resource, agent_runs, used, limit, charge, of_run, mark_exhausted, consume,
  clocked, record_runtime, with_target, register_target,
}
use agenticops.Budget.Outcomes.{consume_cases, record_runtime_cases, register_target_cases}

-- Every counter is within its limit, no more devices are targeted than the limit, and a runtime
-- past its limit has been reported.
pub record IsWithin (b : AgentBudget) : Type 0 where
  pub agent : b.used_agent_runs ≤ b.max_agent_runs
  pub llm : b.used_llm_calls ≤ b.max_llm_calls
  pub tool : b.used_tool_calls ≤ b.max_tool_calls
  pub probe : b.used_probe_calls ≤ b.max_probe_calls
  pub replan : b.used_replan_count ≤ b.max_replan_count
  pub targets : length b.target_device_ids ≤ b.max_target_devices
  pub runtime : b.max_runtime_seconds < b.used_runtime_seconds → b.exhausted ≡ true

charge-IsWithin :
    (r : Resource) (n : ℕ) (b : AgentBudget)
    → used r b + n ≤ limit r b
    → IsWithin b
    → IsWithin (charge r n b)
unfolding charge limit
charge-IsWithin agent_runs n b h w = ground arith
charge-IsWithin _ n b h w = ground arith

mark-IsWithin : (s : String) (b : AgentBudget) → IsWithin b → IsWithin (mark_exhausted s b)
unfolding mark_exhausted
mark-IsWithin s b w = ground arith

-- If every budget is within its limits, then so it is after a call of consume, with any resource
-- and amount, whether it succeeds or not.
pub consume-IsWithin :
    (run name : String) (n : ℕ) (db : BudgetDb)
    → All IsWithin db.budgets
    → All IsWithin (consume run name n db).1.budgets
consume-IsWithin run name n db w = elim (consume_cases run name n db) [
  | inl (e, p) ↦ rw p w
  | inr (inl (b, r, found, over, p, rows)) ↦ rw rows (
      All-update_found IsWithin (of_run run) (mark_exhausted name) db.budgets b found
        (mark-IsWithin name b (All-found IsWithin (of_run run) db.budgets b found w)) w)
  | inr (inr (b, r, named, found, fits, p, rows)) ↦ rw rows (
      All-update_found IsWithin (of_run run) (charge r n) db.budgets b found
        (charge-IsWithin r n b fits (All-found IsWithin (of_run run) db.budgets b found w)) w)
]

clocked-IsWithin :
    (elapsed : ℕ) (b : AgentBudget)
    → (clocked elapsed b).used_runtime_seconds ≤ b.max_runtime_seconds
    → IsWithin b
    → IsWithin (clocked elapsed b)
unfolding clocked
clocked-IsWithin elapsed b h w = ground arith

reported-IsWithin :
    (elapsed : ℕ) (b : AgentBudget)
    → IsWithin b
    → IsWithin (mark_exhausted "runtime_seconds" (clocked elapsed b))
unfolding clocked mark_exhausted
reported-IsWithin elapsed b w = ground arith

-- If every budget is within its limits, a runtime past its limit being marked as exhausted, then
-- so it is after a runtime report.
record_runtime-IsWithin :
    (run : String) (elapsed : ℕ) (db : BudgetDb)
    → All IsWithin db.budgets
    → All IsWithin (record_runtime run elapsed db).1.budgets
record_runtime-IsWithin run elapsed db w = elim (record_runtime_cases run elapsed db) [
  | inl (e, p) ↦ rw p w
  | inr (inl (b, found, over, p, rows)) ↦ rw rows (
      All-update_found IsWithin (of_run run) _ db.budgets b found
        (reported-IsWithin elapsed b (All-found IsWithin (of_run run) db.budgets b found w)) w)
  | inr (inr (b, found, fits, p, rows)) ↦ rw rows (
      All-update_found IsWithin (of_run run) (clocked elapsed) db.budgets b found
        (clocked-IsWithin elapsed b fits (All-found IsWithin (of_run run) db.budgets b found w)) w)
]

with_target-IsWithin :
    (d : ℕ) (b : AgentBudget)
    → length b.target_device_ids < b.max_target_devices
    → IsWithin b
    → IsWithin (with_target d b)
unfolding with_target
with_target-IsWithin d b h w = ground (arith, length-append b.target_device_ids (d ∷ []))

-- If every budget is within its limits, then so it is after a device was registered, whether it
-- is accepted or not.
register_target-IsWithin :
    (run : String) (d : ℕ) (db : BudgetDb)
    → All IsWithin db.budgets
    → All IsWithin (register_target run d db).1.budgets
register_target-IsWithin run d db w = elim (register_target_cases run d db) [
  | inl (e, p) ↦ rw p w
  | inr (inl (b, there, p)) ↦ rw p w
  | inr (inr (inl (b, found, full, p, rows))) ↦ rw rows (
      All-update_found IsWithin (of_run run) (mark_exhausted "target_devices") db.budgets b found
        (mark-IsWithin "target_devices" b (All-found IsWithin (of_run run) db.budgets b found w)) w)
  | inr (inr (inr (b, found, room, p, rows))) ↦ rw rows (
      All-update_found IsWithin (of_run run) (with_target d) db.budgets b found
        (with_target-IsWithin d b room (All-found IsWithin (of_run run) db.budgets b found w)) w)
]
