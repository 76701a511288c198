-- ===== src/Tests/BudgetTests.antt =====
-- A small budget, charged to its limit and past it.
use agenticops.Prelude.{arith, false, none, [], ◌∷◌, All}
use agenticops.Budget.Defs.{AgentBudget, BudgetDb, consume}
use agenticops.Budget.Bounds.{IsWithin, consume-IsWithin}

abbrev small_budget : AgentBudget
small_budget = record {
  graph_run_id = "g-1";
  max_agent_runs = 2;
  max_llm_calls = 3;
  max_tool_calls = 3;
  max_probe_calls = 1;
  max_replan_count = 1;
  max_runtime_seconds = 60;
  max_target_devices = 1;
  used_agent_runs = 1;
  used_llm_calls = 3;
  used_tool_calls = 0;
  used_probe_calls = 0;
  used_replan_count = 0;
  used_runtime_seconds = 10;
  target_device_ids = 5 ∷ [];
  exhausted = false;
  exhausted_reason = none;
}

abbrev budget_db : BudgetDb
budget_db = record { budgets = small_budget ∷ []; metrics = [] }

small_budget-IsWithin : IsWithin small_budget
small_budget-IsWithin = record {
  agent = omega arith;
  llm = omega arith;
  tool = omega arith;
  probe = omega arith;
  replan = omega arith;
  targets = omega arith;
  runtime = λ h. absurd (omega (arith, h));
}

consume-IsWithin_example : All IsWithin (consume "g-1" "llm_calls" 1 budget_db).1.budgets
consume-IsWithin_example =
    consume-IsWithin "g-1" "llm_calls" 1 budget_db (small_budget-IsWithin, tt)
