-- ===== src/Condition/Notification.antt =====
-- internal/schedulers/condition/scheduler/notification.go: the trigger data that the scheduler makes
-- of a worker's notification, with the job's data of pkg/types/schedulers.go.
use triggerx_backend.Prelude.{ℕ, String, Bool, ◌||◌, ◌==◌, if◌then◌else◌}
use triggerx_backend.Prelude.Int.{pos}
use triggerx_backend.Float.{Float64}
use triggerx_backend.Types.{TaskTargetData, TaskTriggerData}
use triggerx_backend.Condition.Evaluate.{ConditionWorkerData}

-- The fields of an event worker's data that the scheduler passes on.
pub record EventWorkerData : Type 0 where
  pub expiration_time : ℕ
  pub trigger_chain_id : String
  pub trigger_contract_address : String
  pub trigger_event : String

-- A field that a composite literal leaves out is zero.
abbrev pub zero_trigger_data : TaskTriggerData
zero_trigger_data = record {
  task_id = 0;
  task_definition_id = 0;
  recurring = Bool.false;
  expiration_time = 0;
  current_trigger_timestamp = 0;
  next_trigger_timestamp = 0;
  time_schedule_type = "";
  time_cron_expression = "";
  time_specific_schedule = "";
  time_interval = 0;
  event_chain_id = "";
  event_tx_hash = "";
  event_trigger_contract_address = "";
  event_trigger_name = "";
  condition_type = "";
  condition_source_type = "";
  condition_source_url = "";
  condition_upper_limit = pos 0;
  condition_lower_limit = pos 0;
  condition_satisfied_value = pos 0;
}

module _ (float : Float64) where
  open float use {F, to_int}

  -- The notification of either kind of worker.
  pub record Notification : Type 0 where
    pub trigger_tx_hash : String
    pub trigger_value : F
    pub triggered_at : ℕ

  pub record ScheduleConditionJobData : Type 0 where
    pub job_id : ℕ
    pub task_definition_id : ℕ
    pub task_target_data : TaskTargetData
    pub event_worker_data : EventWorkerData
    pub condition_worker_data : ConditionWorkerData float

  abbrev pub base_trigger_data : ScheduleConditionJobData → Notification → TaskTriggerData
  base_trigger_data job n = record zero_trigger_data {
    task_id = job.task_target_data.task_id;
    task_definition_id = job.task_definition_id;
    current_trigger_timestamp = n.triggered_at;
  }

  abbrev pub condition_trigger_data : ScheduleConditionJobData → Notification → TaskTriggerData
  condition_trigger_data job n =
      let d = job.condition_worker_data in
      record (base_trigger_data job n) {
        expiration_time = d.expiration_time;
        condition_satisfied_value = to_int n.trigger_value;
        condition_type = d.condition_type;
        condition_source_type = d.value_source_type;
        condition_source_url = d.value_source_url;
        condition_upper_limit = to_int d.upper_limit;
        condition_lower_limit = to_int d.lower_limit;
      }

  abbrev pub event_trigger_data : ScheduleConditionJobData → Notification → TaskTriggerData
  event_trigger_data job n =
      let d = job.event_worker_data in
      record (base_trigger_data job n) {
        expiration_time = d.expiration_time;
        event_tx_hash = n.trigger_tx_hash;
        event_chain_id = d.trigger_chain_id;
        event_trigger_contract_address = d.trigger_contract_address;
        event_trigger_name = d.trigger_event;
      }

  unfoldable pub create_trigger_data_from_notification :
      ScheduleConditionJobData → Notification → TaskTriggerData
  create_trigger_data_from_notification job n =
      if (job.task_definition_id == 5) || (job.task_definition_id == 6)
      then condition_trigger_data job n
      else if (job.task_definition_id == 3) || (job.task_definition_id == 4)
      then event_trigger_data job n
      else base_trigger_data job n
