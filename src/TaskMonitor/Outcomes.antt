-- ===== src/TaskMonitor/Outcomes.antt =====
-- internal/taskmonitor/tasks/task_add.go: a task is marked completed or failed.
use triggerx_backend.Prelude.{ℕ, some, [], ◌∷◌}
use triggerx_backend.Prelude.Results.{Result, ok, err, panic}
use triggerx_backend.Prelude.Texts.{Text, text}
use triggerx_backend.TaskMonitor.Redis.{Redis}
use triggerx_backend.TaskMonitor.Data.{TaskError, TaskStreamData, TaskJson, dispatched, completed}
use triggerx_backend.TaskMonitor.Expiration.{remove_task_timeout}
use triggerx_backend.TaskMonitor.Index.{find_task_by_id, remove_task_index}
use triggerx_backend.TaskMonitor.Streams.{
  add_task_to_stream, ack_task_processed, move_task_to_failed,
}

abbrev pub processors : Text
processors = text "task-processors"

module _ {R : Type 0} (api : Redis R) (json : TaskJson) where
  -- After the acknowledgement; without it the index and the timeout stay. Errors are only logged.
  abbrev pub forget_task : ℕ → R × Result TaskError (Unit {0}) → R
  forget_task id (r, ok done) = (remove_task_timeout api (remove_task_index api json r id).0 id).0
  forget_task id (r, err e) = r
  forget_task id (r, panic) = r

  -- `if messageID != ""`
  abbrev pub acknowledge_found : R → ℕ → Text → R
  acknowledge_found r id [] = r
  acknowledge_found r id (x ∷ message) =
      forget_task id (ack_task_processed api r dispatched processors (x ∷ message))

  -- The error of the addition is only logged.
  abbrev pub after_completed :
      ℕ → Text → R × Result TaskError (Unit {0}) → R × Result TaskError (Unit {0})
  after_completed id message (r, ok done) = (acknowledge_found r id message, ok tt)
  after_completed id message (r, err e) = (acknowledge_found r id message, ok tt)
  after_completed id message (r, panic) = (r, panic)

  -- A task that is not found is nil, and its `CompletedAt` is assigned all the same.
  abbrev pub complete_found :
      R → ℕ → ℕ → Result TaskError (TaskStreamData × Text) → R × Result TaskError (Unit {0})
  complete_found r now id (ok (t, message)) =
      after_completed id message
        (add_task_to_stream api json r now completed (record t { completed_at = some now }))
  complete_found r now id (err e) = (r, panic)
  complete_found r now id panic = (r, panic)

  unfoldable pub mark_task_completed : R → ℕ → ℕ → R × Result TaskError (Unit {0})
  unfolding find_task_by_id add_task_to_stream ack_task_processed remove_task_index
      remove_task_timeout
  mark_task_completed r now id = complete_found r now id (find_task_by_id api json r id)

  abbrev pub after_failed :
      ℕ → Text → R × Result TaskError (Unit {0}) → R × Result TaskError (Unit {0})
  after_failed id message (r, ok done) = (acknowledge_found r id message, ok tt)
  after_failed id message (r, err e) = (r, err e)
  after_failed id message (r, panic) = (r, panic)

  -- A task that is not found may have been processed, and is no error.
  abbrev pub fail_found :
      R → ℕ → ℕ → Text → Result TaskError (TaskStreamData × Text) → R × Result TaskError (Unit {0})
  fail_found r now id error (ok (t, message)) =
      after_failed id message (move_task_to_failed api json r now t error)
  fail_found r now id error (err e) = (r, ok tt)
  fail_found r now id error panic = (r, panic)

  unfoldable pub mark_task_failed : R → ℕ → ℕ → Text → R × Result TaskError (Unit {0})
  unfolding find_task_by_id move_task_to_failed
  mark_task_failed r now id error = fail_found r now id error (find_task_by_id api json r id)
