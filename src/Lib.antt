-- ===== src/Lib.antt =====
-- agenticops: what the backend of this repository promises about cases, tasks, budgets, policy,
-- approvals, the execution of plans, audit, webhooks, log ingestion, verification and the cache.
--
-- The parts and how they interact. A case moves through the statuses of a table (Cases, of
-- backend/services/case_state_service.py and case_timeline_service.py); each move is journalled
-- under an idempotency key. Agents work on a case in tasks (Tasks, of
-- backend/services/agent_task_service.py) within a budget per run (Budget, of
-- backend/services/agent_budget_service.py). Before an action runs, the policy guard (Policy, of
-- backend/policies and backend/services/automation_settings_service.py) looks up its tool (Tools,
-- of backend/tools) and passes the request through gates. What the guard wants approved is frozen
-- and decided on (Approvals, of backend/approvals/service.py), which moves the case, appends to the
-- hash-chained audit log (Audit, of backend/audit/service.py) and queues an event (Webhooks, of
-- backend/webhooks). An approved plan is executed (Execution, of
-- backend/services/execution_service.py): the call is accepted under an idempotency key, the plan
-- and its version are checked again at the worker's boundary, each action passes the guard and, if
-- it is a mutation, gets a baseline, and the execution engine (Execution/Engine, of
-- backend/services/execution_engine.py) tries it; after a partial success the rollback is executed.
-- Execution/Frame, Guarded, Boundary, Starts, Quiet, Safety, Once and Repeat prove what is said of it
-- below. After an action ran it is verified in rounds (Verifications, of backend/verifications),
-- which again moves the case and queues an event. Logs come in under a lease on their scope and are
-- counted in buckets, a page at a time (Ingestion, of backend/ingestion). Answers of external
-- systems are cached (Cache, of backend/utils/cache.py).
--
-- How the code is modelled. A table is a list of records with the columns that the code reads or
-- writes, a query a search of the list, `.first()` the first row found, an update a change of that
-- row. A method that may raise is an `Exec` (Prelude/Exec): from a store to a result and the store,
-- so that what was written before an exception is still there; whether the session is rolled back
-- is the caller's concern. Execution/Plan models that too: a session that ends in an exception
-- leaves the rows of its last commit, and the calls of executors that were made (`effects`), each
-- noted with what the guard would have read of the store at that time. What other transactions do between the two commits is an argument of `execute_plan`. Functions keep
-- the names of the methods; the part of a method after a look-up is a function by clauses on what
-- was found, such as `append_unless`. Enumerations, and texts that only take the values of one, are
-- data types.
--
-- Bounds. There is no fuel but in `str`, where a number has no more digits than its value; loops
-- are recursions on lists, and the retries of the engine on the attempts that its policy leaves.
-- Numbers are natural; times are whole seconds, and a call reads the clock once.
--
-- Not modelled: row locks, flushes and the database's own columns; identifiers that nothing reads;
-- floating point (a ratio is a fraction, a duration whole seconds); the letter case and blanks
-- beyond ASCII. Parameters: Python's text of a JSON value and `re.search` (`Python` in
-- Tools/Registry), SHA-256 and canonical JSON, pydantic's validation of a policy, the URL parser
-- and the resolver (`Net`), the HTTP client with decryption and signing (`Post`, which tells the
-- exceptions that the worker catches from all others), the monitoring
-- adapters (`Adapters`), the signature of a log line, and the uuids, which come in with a call; for
-- an execution, the registered executors with what they do, the reading of a verification policy,
-- the digests of requests, and what the monitoring answers before and after an action (`World` in
-- Execution/Actions); the digest of a cache key; what the two log readers fetch (`native` and
-- `proxy` in Ingestion/Pages). Request handlers, migrations, agents, identity providers, the rule
-- engine (it compares floating-point numbers read from texts) and the concrete executors are
-- outside.
pub mod Prelude
pub mod Cases
pub mod Tasks
pub mod Budget
pub mod Tools
pub mod Policy
pub mod Webhooks
pub mod Verifications
pub mod Ingestion
pub mod Approvals
pub mod Audit
pub mod Cache
pub mod Execution
pub mod Tests
