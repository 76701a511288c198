-- ===== src/Budget/Defs.antt =====
-- `AgentBudgetService`. A budget is found by its run; a refusal is written before it is raised.
use agenticops.Prelude.{
  ℕ, ◌+◌, String, Bool, true, Option, none, some, List, [], ◌∷◌, ◌++◌, max, ltb, leb, ◌==◌, find?,
  update_first, any, length, str_eq, if◌then◌else◌,
}
use agenticops.Prelude.Exec.{
  Exec, value_error, lookup_error, budget_exhausted, pure, raise, gets, modify, some_or, ◌>>=◌,
  ◌>>◌,
}
use agenticops.Cases.Store.{Metric, count_metric}

-- Seconds are counted whole.
pub record AgentBudget : Type 0 where
  pub graph_run_id : String
  pub max_agent_runs : ℕ
  pub max_llm_calls : ℕ
  pub max_tool_calls : ℕ
  pub max_probe_calls : ℕ
  pub max_replan_count : ℕ
  pub max_runtime_seconds : ℕ
  pub max_target_devices : ℕ
  pub used_agent_runs : ℕ
  pub used_llm_calls : ℕ
  pub used_tool_calls : ℕ
  pub used_probe_calls : ℕ
  pub used_replan_count : ℕ
  pub used_runtime_seconds : ℕ
  pub target_device_ids : List ℕ
  pub exhausted : Bool
  pub exhausted_reason : Option String

pub record BudgetDb : Type 0 where
  pub budgets : List AgentBudget
  pub metrics : List Metric

-- The keys of `LIMITS`.
pub data Resource : Type 0 where
  agent_runs llm_calls tool_calls probe_calls replan_count : Resource

unfoldable pub resource_of : String → Option Resource
resource_of s =
    if str_eq s "agent_runs"
    then some agent_runs
    else if str_eq s "llm_calls"
    then some llm_calls
    else if str_eq s "tool_calls"
    then some tool_calls
    else if str_eq s "probe_calls"
    then some probe_calls
    else if str_eq s "replan_count"
    then some replan_count
    else none

-- `getattr(budget, used_name)`, `getattr(budget, max_name)` and `setattr(budget, used_name, ...)`
unfoldable pub used : Resource → AgentBudget → ℕ
used agent_runs b = b.used_agent_runs
used llm_calls b = b.used_llm_calls
used tool_calls b = b.used_tool_calls
used probe_calls b = b.used_probe_calls
used replan_count b = b.used_replan_count

unfoldable pub limit : Resource → AgentBudget → ℕ
limit agent_runs b = b.max_agent_runs
limit llm_calls b = b.max_llm_calls
limit tool_calls b = b.max_tool_calls
limit probe_calls b = b.max_probe_calls
limit replan_count b = b.max_replan_count

unfoldable pub set_used : Resource → ℕ → AgentBudget → AgentBudget
set_used agent_runs n b = record b { used_agent_runs = n }
set_used llm_calls n b = record b { used_llm_calls = n }
set_used tool_calls n b = record b { used_tool_calls = n }
set_used probe_calls n b = record b { used_probe_calls = n }
set_used replan_count n b = record b { used_replan_count = n }

unfoldable pub of_run : String → AgentBudget → Bool
of_run run b = str_eq b.graph_run_id run

-- `db.query(AgentBudget).filter(...).with_for_update().one()`
unfoldable pub budget_of : String → Exec BudgetDb AgentBudget
unfolding of_run
budget_of run = do
  found ← gets (λ db. find? (of_run run) db.budgets)
  some_or found (lookup_error "No row was found when one was required")

unfoldable pub write : String → (AgentBudget → AgentBudget) → Exec BudgetDb Unit
unfolding of_run
write run f = modify (λ db. record db { budgets = update_first (of_run run) f db.budgets })

unfoldable pub mark_exhausted : String → AgentBudget → AgentBudget
mark_exhausted reason b = record b { exhausted = true; exhausted_reason = some reason }

-- The refusal: the flag, its reason and the metric, then the exception.
unfoldable pub exhaust : {A : Type 0} → String → String → Exec BudgetDb A
exhaust run reason = do
  write run (mark_exhausted reason)
  modify (λ db. record db {
    metrics = count_metric "agent_budget_exhausted_total" (("resource", reason) ∷ []) db.metrics;
  })
  raise (budget_exhausted reason)

-- `setattr(budget, used_name, getattr(budget, used_name) + amount)`
unfoldable pub charge : Resource → ℕ → AgentBudget → AgentBudget
unfolding used set_used
charge r amount b = set_used r (used r b + amount) b

unfoldable pub consume_from :
    String → String → Resource → ℕ → AgentBudget → Exec BudgetDb AgentBudget
unfolding exhaust write used limit charge
consume_from run name r amount b =
    if ltb (limit r b) (used r b + amount)
    then exhaust run name
    else do write run (charge r amount); pure (charge r amount b)

unfoldable pub known : Option Resource → ℕ → Option Resource
known r amount = if ltb amount 1 then none else r

-- An unknown resource and an amount below one are refused before the budget is read.
unfoldable pub consume : String → String → ℕ → Exec BudgetDb AgentBudget
unfolding consume_from resource_of budget_of known
consume run name amount = do
  r ← some_or (known (resource_of name) amount) (value_error "invalid budget resource")
  b ← budget_of run
  consume_from run name r amount b

-- `max(float(used or 0), float(elapsed))`, written before it is compared.
unfoldable pub clocked : ℕ → AgentBudget → AgentBudget
clocked elapsed b = record b { used_runtime_seconds = max b.used_runtime_seconds elapsed }

unfoldable pub record_runtime : String → ℕ → Exec BudgetDb AgentBudget
unfolding clocked exhaust write budget_of
record_runtime run elapsed = do
  b ← budget_of run
  write run (clocked elapsed)
  if ltb b.max_runtime_seconds (clocked elapsed b).used_runtime_seconds
      then exhaust run "runtime_seconds"
      else pure (clocked elapsed b)

unfoldable pub has_target : ℕ → List ℕ → Bool
has_target d = any (λ x. x == d)

unfoldable pub with_target : ℕ → AgentBudget → AgentBudget
with_target d b = record b { target_device_ids = b.target_device_ids ++ d ∷ [] }

unfoldable pub register_target : String → ℕ → Exec BudgetDb AgentBudget
unfolding has_target with_target exhaust write budget_of
register_target run d = do
  b ← budget_of run
  if has_target d b.target_device_ids
      then pure b
      else if leb b.max_target_devices (length b.target_device_ids)
      then exhaust run "target_devices"
      else (do write run (with_target d); pure (with_target d b))
