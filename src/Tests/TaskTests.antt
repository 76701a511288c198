-- ===== src/Tests/TaskTests.antt =====
-- Two tasks of one graph run.
use agenticops.Prelude.{ℕ, ◌≡◌, refl, arith, Option, none, some, [], find?, where_all, inl, String}
use agenticops.Prelude.Exec.{ok}
use agenticops.Prelude.Json.{end}
use agenticops.Cases.Store.{CaseDb}
use agenticops.Tasks.Status.{TaskStatus, running, completed, failed, is_finished}
use agenticops.Tasks.Store.{TaskDb}
use agenticops.Tasks.Create.{TaskRequest, create, new_task, create_unless, add_task}
use agenticops.Tasks.Creation.{IsKeyed, create_idempotent, create-IsKeyed}
use agenticops.Tasks.Transition.{Work, transition}
use agenticops.Tasks.Lifecycle.{IsCoherent, transition-IsCoherent, done_is_final}

abbrev task_request : String → TaskRequest
task_request goal = record {
  graph_run_id = "g-1";
  case_id = 7;
  task_type = "diagnosis";
  graph_node = "collect";
  goal = goal;
  idempotency_key = "collect:0";
  assigned_agent_type = none;
  assigned_agent_name = none;
  input_payload = end;
  priority = 50;
  parent_task_id = none;
  insight_round = 0;
  max_attempts = 3;
  deadline_at = none;
  created_by = "case_supervisor";
  correlation_id = "c-1";
}

abbrev task_db : TaskDb
task_db = record {
  tasks = [];
  next_task_id = 1;
  messages = [];
  case_db = record { cases = []; transitions = []; timeline = []; metrics = [] };
}

first_created : (create (task_request "look") task_db).0 ≡ ok (new_task 1 (task_request "look"))
unfolding create create_unless add_task find? agenticops.Cases.Store.append
first_created = refl

create_idempotent_example :
    create (task_request "look again") (create (task_request "look") task_db).1
    ≡ (ok (new_task 1 (task_request "look")), (create (task_request "look") task_db).1)
create_idempotent_example =
    create_idempotent (task_request "look") (task_request "look again") task_db
      (new_task 1 (task_request "look")) refl refl first_created

task_db-IsKeyed : IsKeyed task_db
unfolding where_all
task_db-IsKeyed = record { once = λ run key. omega arith; numbered = tt }

create-IsKeyed_example : IsKeyed (create (task_request "look") task_db).1
create-IsKeyed_example = create-IsKeyed (task_request "look") task_db task_db-IsKeyed

abbrev task_work : TaskStatus → Option ℕ → Work
task_work status finished_at = record {
  task = record {
    id = 1;
    graph_run_id = "g-1";
    case_id = 7;
    parent_task_id = none;
    task_code = "collect:0:collect:0";
    task_type = "diagnosis";
    graph_node = "collect";
    goal = "look";
    assigned_agent_type = none;
    assigned_agent_name = none;
    status = status;
    priority = 50;
    input_payload = end;
    output_payload = end;
    error_message = none;
    attempt_count = 1;
    max_attempts = 3;
    insight_round = 0;
    idempotency_key = "collect:0";
    deadline_at = none;
    started_at = some 10;
    finished_at = finished_at;
    created_by = "case_supervisor";
  };
  metrics = [];
}

running-IsCoherent : IsCoherent (task_work running none).task
unfolding is_finished
running-IsCoherent = record {
  attempted = λ h. refl;
  running_started = λ h. omega arith;
  finished_stamped = λ h. ground arith;
}

transition-IsCoherent_example :
    IsCoherent (transition 30 failed none (some "no answer") (task_work running none)).1.task
transition-IsCoherent_example =
    transition-IsCoherent 30 failed none (some "no answer") (task_work running none)
      running-IsCoherent

done_is_final_example :
    (transition 40 failed none none (task_work completed (some 30))).1
    ≡ task_work completed (some 30)
done_is_final_example = done_is_final 40 failed none none (task_work completed (some 30)) (inl refl)
