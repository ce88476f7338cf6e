-- ===== src/TimeScheduler/Schedule.antt =====
-- internal/schedulers/time/scheduler/schedule.go: the tasks of a poll become batches, and a batch a
-- request to the task dispatcher. The result of a request is only logged. The batch size is not
-- negative, and the clock stands still during a poll.
use triggerx_backend.Prelude.{
  ℕ, zero, suc, ◌+◌, ◌-◌, String, Bool, true, false, not, Option, none, some, List, [], ◌∷◌, ◌++◌,
  map, length, take, drop, ltb, if◌then◌else◌,
}
use triggerx_backend.Prelude.Int.{pos}
use triggerx_backend.Types.{TaskTargetData, TaskTriggerData, SendTaskDataToKeeper}

pub record ScheduleTimeTaskData : Type 0 where
  pub task_id : ℕ
  pub task_definition_id : ℕ
  pub last_executed_at : ℕ
  pub expiration_time : ℕ
  pub next_execution_timestamp : ℕ
  pub schedule_type : String
  pub time_interval : ℕ
  pub cron_expression : String
  pub specific_schedule : String
  pub task_target_data : TaskTargetData
  pub is_imua : Bool

pub record SchedulerTaskRequest : Type 0 where
  pub send_task_data_to_keeper : SendTaskDataToKeeper
  pub source : String

abbrev pub target_data : ScheduleTimeTaskData → TaskTargetData
target_data t = record {
  job_id = t.task_target_data.job_id;
  task_id = t.task_id;
  task_definition_id = t.task_definition_id;
  target_chain_id = t.task_target_data.target_chain_id;
  target_contract_address = t.task_target_data.target_contract_address;
  target_function = t.task_target_data.target_function;
  abi = t.task_target_data.abi;
  arg_type = t.task_target_data.arg_type;
  arguments = t.task_target_data.arguments;
  dynamic_arguments_script_url = t.task_target_data.dynamic_arguments_script_url;
  is_imua = t.is_imua;
  script_storage = [];
  script_language = "";
}

abbrev pub trigger_data : ScheduleTimeTaskData → TaskTriggerData
trigger_data t = record {
  task_id = t.task_id;
  task_definition_id = t.task_definition_id;
  recurring = false;
  expiration_time = t.expiration_time;
  current_trigger_timestamp = t.last_executed_at;
  next_trigger_timestamp = t.next_execution_timestamp;
  time_schedule_type = t.schedule_type;
  time_cron_expression = t.cron_expression;
  time_specific_schedule = t.specific_schedule;
  time_interval = t.time_interval;
  event_chain_id = "";
  event_tx_hash = "";
  event_trigger_contract_address = "";
  event_trigger_name = "";
  condition_type = "";
  condition_source_type = "";
  condition_source_url = "";
  condition_upper_limit = pos 0;
  condition_lower_limit = pos 0;
  condition_satisfied_value = pos 0;
}

-- Tasks that have expired when they are looked at are skipped. The clock is read for each task; `now`
-- gives the time read for it, and each task has an id of its own.
abbrev pub valid :
    (ScheduleTimeTaskData → ℕ) → List ScheduleTimeTaskData → List ScheduleTimeTaskData
valid now [] = []
valid now (t ∷ ts) = if ltb t.expiration_time (now t) then valid now ts else t ∷ valid now ts

abbrev pub request_of : ℕ → List ScheduleTimeTaskData → SchedulerTaskRequest
request_of scheduler ts = record {
  send_task_data_to_keeper = record {
    task_id = map (λ t. t.task_id) ts;
    performer_data = record { operator_id = 0; keeper_address = ""; is_imua = false };
    target_data = map target_data ts;
    trigger_data = map trigger_data ts;
    scheduler_id = scheduler;
    manager_signature = "";
  };
  source = "time_scheduler";
}

abbrev pub unless_empty : ℕ → List ScheduleTimeTaskData → List SchedulerTaskRequest
unless_empty scheduler [] = []
unless_empty scheduler (t ∷ ts) = request_of scheduler (t ∷ ts) ∷ []

-- The request of a batch, or none.
unfoldable pub process_batch :
    ℕ → (ScheduleTimeTaskData → ℕ) → List ScheduleTimeTaskData → List SchedulerTaskRequest
process_batch scheduler now batch = unless_empty scheduler (valid now batch)

-- `tasks[i:end]`
abbrev pub slice : {A : Type 0} → ℕ → ℕ → List A → List A
slice i end xs = take (end - i) (drop i xs)

abbrev pub end_of : ℕ → ℕ → ℕ
end_of i len = if ltb len i then len else i

abbrev pub and_batches : {A : Type 0} → List A → Option (List (List A)) → Option (List (List A))
and_batches batch none = none
and_batches batch (some rest) = some (batch ∷ rest)

-- The batches from an index on, or none if the loop outlasts its fuel.
unfoldable pub batches : {A : Type 0} → ℕ → ℕ → ℕ → List A → Option (List (List A))
batches zero size i xs = if ltb i (length xs) then none else some []
batches (suc fuel) size i xs =
    let rest = batches fuel size (i + size) xs in
    if ltb i (length xs)
    then and_batches (slice i (end_of (i + size) (length xs)) xs) rest
    else some []

abbrev pub of_kind : Bool → List ScheduleTimeTaskData → List ScheduleTimeTaskData
of_kind imua [] = []
of_kind imua (t ∷ ts) =
    if (if imua then t.is_imua else not t.is_imua) then t ∷ of_kind imua ts else of_kind imua ts

abbrev pub requests_of :
    ℕ → (ScheduleTimeTaskData → ℕ) → List (List ScheduleTimeTaskData) → List SchedulerTaskRequest
requests_of scheduler now [] = []
requests_of scheduler now (b ∷ bs) = process_batch scheduler now b ++ requests_of scheduler now bs

abbrev pub both :
    ℕ
    → (ScheduleTimeTaskData → ℕ)
    → Option (List (List ScheduleTimeTaskData))
    → Option (List (List ScheduleTimeTaskData))
    → Option (List SchedulerTaskRequest)
both scheduler now none second = none
both scheduler now (some first) none = none
both scheduler now (some first) (some second) =
    some (requests_of scheduler now first ++ requests_of scheduler now second)

-- The requests of a poll, in their order; no tasks where the database fails.
unfoldable pub poll_and_schedule_tasks :
    ℕ
    → ℕ
    → ℕ
    → (ScheduleTimeTaskData → ℕ)
    → Option (List ScheduleTimeTaskData)
    → Option (List SchedulerTaskRequest)
unfolding batches process_batch
poll_and_schedule_tasks fuel scheduler size now none = some []
poll_and_schedule_tasks fuel scheduler size now (some tasks) =
    both scheduler now (batches fuel size 0 (of_kind false tasks))
      (batches fuel size 0 (of_kind true tasks))
