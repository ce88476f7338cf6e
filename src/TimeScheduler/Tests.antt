-- ===== src/TimeScheduler/Tests.antt =====
-- Two tasks, one of them for Imua, in batches of one.
use triggerx_backend.Prelude.{ℕ, ◌≡◌, true, false, some, List, [], ◌∷◌, ◌++◌, All, arith}
use triggerx_backend.Types.{TaskTargetData}
use triggerx_backend.TimeScheduler.Schedule.{
  ScheduleTimeTaskData, SchedulerTaskRequest, valid, of_kind, poll_and_schedule_tasks,
}
use triggerx_backend.TimeScheduler.Submitted.{
  all_ids, task_ids, Fits, poll_and_schedule_tasks-all_ids,
}

abbrev target : TaskTargetData
target = record {
  job_id = 1;
  task_id = 0;
  task_definition_id = 1;
  target_chain_id = "1";
  target_contract_address = "0xa";
  target_function = "f";
  abi = "[]";
  arg_type = 1;
  arguments = [];
  dynamic_arguments_script_url = "";
  is_imua = false;
  script_storage = [];
  script_language = "";
}

abbrev pub task : ScheduleTimeTaskData
task = record {
  task_id = 7;
  task_definition_id = 1;
  last_executed_at = 0;
  expiration_time = 100;
  next_execution_timestamp = 5;
  schedule_type = "interval";
  time_interval = 5;
  cron_expression = "";
  specific_schedule = "";
  task_target_data = target;
  is_imua = true;
}

abbrev pub tasks : List ScheduleTimeTaskData
tasks = task ∷ record task { task_id = 8; is_imua = false } ∷ []

-- The clock stands at 9 when a task is looked at.
abbrev clock : ScheduleTimeTaskData → ℕ
clock t = 9

poll_and_schedule_tasks-all_ids_example :
    (rs : List SchedulerTaskRequest) × (poll_and_schedule_tasks 2 1 1 clock (some tasks) ≡ some rs)
    × (all_ids rs
        ≡ task_ids (valid clock (of_kind false tasks))
          ++ task_ids (valid clock (of_kind true tasks)))
    × All (Fits 1) rs
poll_and_schedule_tasks-all_ids_example =
    poll_and_schedule_tasks-all_ids 2 1 1 clock tasks (omega arith) (omega arith)
