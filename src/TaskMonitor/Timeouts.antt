-- ===== src/TaskMonitor/Timeouts.antt =====
-- internal/taskmonitor/tasks/workers.go: one round of the timeout worker.
use triggerx_backend.Prelude.{ℕ, Bool, true, false, List, [], ◌∷◌, ◌++◌}
use triggerx_backend.Prelude.Results.{Result, ok, err, panic}
use triggerx_backend.Prelude.Texts.{Text, text}
use triggerx_backend.TaskMonitor.Redis.{Redis}
use triggerx_backend.TaskMonitor.Data.{TaskError, TaskStreamData, TaskJson, dispatched}
use triggerx_backend.TaskMonitor.Expiration.{get_expired_tasks, remove_multiple_task_timeouts}
use triggerx_backend.TaskMonitor.Index.{find_task_by_id, remove_task_index}
use triggerx_backend.TaskMonitor.Streams.{ack_task_processed, move_task_to_failed}

-- The tasks to remove from the timeouts, and those that the database learns have failed and whose
-- user is told; a panic ends the service.
pub record Round (R : Type 0) : Type 0 where
  pub state : R
  pub processed : List ℕ
  pub reported : List ℕ
  pub panicked : Bool

module _ {R : Type 0} (api : Redis R) (json : TaskJson) where
  abbrev pub acknowledge_timeout : R → Text → R
  acknowledge_timeout r [] = r
  acknowledge_timeout r (x ∷ message) =
      (ack_task_processed api r dispatched (text "timeout-checker") (x ∷ message)).0

  -- A task whose move failed stays in the timeouts.
  abbrev pub after_move : Round R → ℕ → Text → R × Result TaskError (Unit {0}) → Round R
  after_move w id message (r, ok done) = record w {
    state = (remove_task_index api json (acknowledge_timeout r message) id).0;
    processed = w.processed ++ (id ∷ []);
    reported = w.reported ++ (id ∷ []);
  }
  after_move w id message (r, err e) = record w { state = r }
  after_move w id message (r, panic) = record w { state = r; panicked = true }

  -- A task that is not found leaves the timeouts too.
  abbrev pub time_out : Round R → ℕ → ℕ → Result TaskError (TaskStreamData × Text) → Round R
  time_out w now id (ok (t, message)) =
      after_move w id message
        (move_task_to_failed api json w.state now t (text "dispatched timeout"))
  time_out w now id (err e) = record w { processed = w.processed ++ (id ∷ []) }
  time_out w now id panic = record w { panicked = true }

  abbrev pub time_out_next : Bool → Round R → ℕ → ℕ → Round R
  time_out_next true w now id = w
  time_out_next false w now id = time_out w now id (find_task_by_id api json w.state id)

  unfoldable pub time_out_all : Round R → ℕ → List ℕ → Round R
  unfolding find_task_by_id move_task_to_failed ack_task_processed remove_task_index
  time_out_all w now [] = w
  time_out_all w now (id ∷ ids) = time_out_all (time_out_next w.panicked w now id) now ids

  abbrev pub clear_processed : Bool → Round R → Round R
  clear_processed true w = w
  clear_processed false w = record w {
    state = (remove_multiple_task_timeouts api w.state w.processed).0;
  }

  abbrev pub time_out_expired : R → ℕ → Result TaskError (List ℕ) → Round R
  time_out_expired r now (ok ids) =
      let w =
        time_out_all (record { state = r; processed = []; reported = []; panicked = false }) now
          ids in
      clear_processed w.panicked w
  time_out_expired r now (err e) = record {
    state = r;
    processed = [];
    reported = [];
    panicked = false;
  }
  time_out_expired r now panic = record {
    state = r;
    processed = [];
    reported = [];
    panicked = true;
  }

  unfoldable pub check_dispatched_timeouts : R → ℕ → Round R
  unfolding get_expired_tasks time_out_all remove_multiple_task_timeouts
  check_dispatched_timeouts r now = time_out_expired r now (get_expired_tasks api r now)
