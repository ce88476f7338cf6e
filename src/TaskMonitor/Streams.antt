-- ===== src/TaskMonitor/Streams.antt =====
-- internal/taskmonitor/tasks (task_add.go, workers.go): a task is added to a stream, acknowledged,
-- moved to the failed ones.
use triggerx_backend.Prelude.{ℕ, ◌+◌, Bool, true, false, Option, none, some}
use triggerx_backend.Prelude.Results.{Result, ok, err}
use triggerx_backend.Prelude.Texts.{Text, text}
use triggerx_backend.TaskMonitor.Redis.{Redis, xack, xdel}
use triggerx_backend.TaskMonitor.Data.{
  TaskError, redis_failed, not_encoded, TaskStreamData, TaskJson, hour, failed,
}
use triggerx_backend.TaskMonitor.Expiration.{add_message_expiration, remove_message_expiration}
use triggerx_backend.TaskMonitor.Index.{first_id, logged}

module _ {R : Type 0} (api : Redis R) where
  -- Without its confirmation an acknowledged message stays where it is; the removals that follow
  -- are only logged where they fail.
  abbrev pub acknowledged : R × Bool → Text → Text → Bool → R × Result TaskError (Unit {0})
  acknowledged (r, false) stream id delete = (r, err redis_failed)
  acknowledged (r, true) stream id false = ((remove_message_expiration api r stream id).0, ok tt)
  acknowledged (r, true) stream id true =
      ((api.send (remove_message_expiration api r stream id).0 (xdel stream id)).0, ok tt)

  unfoldable pub ack_task_processed_with_delete :
      R → Text → Text → Text → Bool → R × Result TaskError (Unit {0})
  unfolding remove_message_expiration
  ack_task_processed_with_delete r stream group id delete =
      acknowledged (api.send r (xack stream group id)) stream id delete

  unfoldable pub ack_task_processed : R → Text → Text → Text → R × Result TaskError (Unit {0})
  unfolding ack_task_processed_with_delete
  ack_task_processed r stream group id = ack_task_processed_with_delete r stream group id true

  module _ (json : TaskJson) where
    -- Every stream's entries live for an hour.
    abbrev pub added_task : ℕ → Text → Option ℕ → R × Option Text → R × Result TaskError (Unit {0})
    added_task now stream first (r, none) = (r, logged first (err redis_failed))
    added_task now stream first (r, some id) =
        ((add_message_expiration api r now stream id hour).0, logged first (ok tt))

    abbrev pub add_encoded : R → ℕ → Text → Option ℕ → Option Text → R × Result TaskError (Unit {0})
    add_encoded r now stream first none = (r, logged first (err not_encoded))
    add_encoded r now stream first (some text) =
        added_task now stream first (api.xadd r stream text)

    unfoldable pub add_task_to_stream :
        R → ℕ → Text → TaskStreamData → R × Result TaskError (Unit {0})
    unfolding add_message_expiration
    add_task_to_stream r now stream t = add_encoded r now stream (first_id t) (json.marshal t)

    abbrev pub failure_of : TaskStreamData → Text → TaskStreamData
    failure_of t message = record t { last_error = message; retry_count = t.retry_count + 1 }

    unfoldable pub move_task_to_failed :
        R → ℕ → TaskStreamData → Text → R × Result TaskError (Unit {0})
    unfolding add_task_to_stream
    move_task_to_failed r now t message = add_task_to_stream r now failed (failure_of t message)
