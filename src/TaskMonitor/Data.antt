-- ===== src/TaskMonitor/Data.antt =====
-- internal/taskmonitor/tasks/types.go: a task in a stream, the streams and the keys. Times are
-- seconds.
use triggerx_backend.Prelude.{ℕ, Option, ◌++◌}
use triggerx_backend.Prelude.Texts.{Text, text}
use triggerx_backend.Types.{SendTaskDataToKeeper}

abbrev pub dispatched : Text
dispatched = text "task:dispatched"

abbrev pub completed : Text
completed = text "task:completed"

abbrev pub failed : Text
failed = text "task:failed"

abbrev pub task_retry : Text
task_retry = text "task:retry"

abbrev pub timeouts_key : Text
timeouts_key = text "dispatched_timeouts"

abbrev pub index_key : Text
index_key = text "task_id_to_message_id"

abbrev pub expiration_key : Text → Text
expiration_key stream = text "stream:expiration:" ++ stream

abbrev pub hour : ℕ
hour = 3600

pub record TaskStreamData : Type 0 where
  pub job_id : Option ℕ
  pub task_definition_id : ℕ
  pub created_at : ℕ
  pub retry_count : ℕ
  pub last_attempt_at : Option ℕ
  pub send_task_data_to_keeper : SendTaskDataToKeeper
  pub dispatched_at : Option ℕ
  pub completed_at : Option ℕ
  pub last_error : Text

pub data TaskError : Type 0 where
  redis_failed no_message no_task_data not_decoded not_encoded not_found : TaskError

-- `encoding/json` for a task.
pub record TaskJson : Type 0 where
  pub marshal : TaskStreamData → Option Text
  pub unmarshal : Text → Option TaskStreamData
