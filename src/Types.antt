-- ===== src/Types.antt =====
-- pkg/types/schedulers.go: the data that schedulers, task dispatcher and keepers exchange about a
-- task. Ids and the schedule's interval are natural numbers; an instant is the number of
-- nanoseconds since Go's zero time.
use triggerx_backend.Prelude.{ℕ, ◌*◌, String, Bool, List}
use triggerx_backend.Prelude.Int.{ℤ}

abbrev pub seconds : ℕ → ℕ
seconds n = n * 1000000000

pub record TaskTargetData : Type 0 where
  pub job_id : ℕ
  pub task_id : ℕ
  pub task_definition_id : ℕ
  pub target_chain_id : String
  pub target_contract_address : String
  pub target_function : String
  pub abi : String
  pub arg_type : ℕ
  pub arguments : List String
  pub dynamic_arguments_script_url : String
  pub is_imua : Bool
  pub script_storage : List (String × String)
  pub script_language : String

pub record TaskTriggerData : Type 0 where
  pub task_id : ℕ
  pub task_definition_id : ℕ
  pub recurring : Bool
  pub expiration_time : ℕ
  pub current_trigger_timestamp : ℕ
  pub next_trigger_timestamp : ℕ
  pub time_schedule_type : String
  pub time_cron_expression : String
  pub time_specific_schedule : String
  pub time_interval : ℕ
  pub event_chain_id : String
  pub event_tx_hash : String
  pub event_trigger_contract_address : String
  pub event_trigger_name : String
  pub condition_type : String
  pub condition_source_type : String
  pub condition_source_url : String
  pub condition_upper_limit : ℤ
  pub condition_lower_limit : ℤ
  pub condition_satisfied_value : ℤ

pub record PerformerData : Type 0 where
  pub operator_id : ℕ
  pub keeper_address : String
  pub is_imua : Bool

pub record SendTaskDataToKeeper : Type 0 where
  pub task_id : List ℕ
  pub performer_data : PerformerData
  pub target_data : List TaskTargetData
  pub trigger_data : List TaskTriggerData
  pub scheduler_id : ℕ
  pub manager_signature : String
