-- ===== src/TaskMonitor/Tests.antt =====
-- One dispatched task, in the Redis that keeps its cells in a list.
use triggerx_backend.Prelude.{◌≡◌, refl, leb, false, none, some, [], ◌∷◌, ℕ_discrete}
use triggerx_backend.Prelude.Maps.{contains, get, put}
use triggerx_backend.Prelude.Results.{ok}
use triggerx_backend.Prelude.Texts.{text, Text-discrete}
use triggerx_backend.Prelude.Decimal.{format_int, digits, parse_int, read_digits}
use triggerx_backend.Types.{PerformerData}
use triggerx_backend.TaskMonitor.Redis.{Cell-discrete, score, value, message}
use triggerx_backend.TaskMonitor.Data.{
  TaskStreamData, TaskJson, dispatched, completed, index_key, timeouts_key,
}
use triggerx_backend.TaskMonitor.Expiration.{
  get_expired_tasks, get_expired_messages, add_task_timeout, add_message_expiration,
}
use triggerx_backend.TaskMonitor.Due.{add_task_timeout-get_expired_tasks}
use triggerx_backend.TaskMonitor.Index.{
  find_task_by_id, find_task_in_dispatched, get_task_by_message_id,
}
use triggerx_backend.TaskMonitor.Streams.{move_task_to_failed, add_task_to_stream}
use triggerx_backend.TaskMonitor.Outcomes.{mark_task_completed}
use triggerx_backend.TaskMonitor.Timeouts.{check_dispatched_timeouts, time_out_all}
use triggerx_backend.TaskMonitor.Leaves.{Leaves}
use triggerx_backend.TaskMonitor.Kept.{mark_task_completed-scanned, cleared}
use triggerx_backend.TaskMonitor.Rounds.{check_dispatched_timeouts-cleared}
use triggerx_backend.TaskMonitor.Settled.{Forgotten, mark_task_completed-Forgotten}
use triggerx_backend.TaskMonitor.Memory.{Cells, memory, memory_laws}

abbrev nobody : PerformerData
nobody = record { operator_id = 1; keeper_address = "0xk"; is_imua = false }

abbrev sample : TaskStreamData
sample = record {
  job_id = some 3;
  task_definition_id = 1;
  created_at = 0;
  retry_count = 0;
  last_attempt_at = none;
  send_task_data_to_keeper = record {
    task_id = 7 ∷ [];
    performer_data = nobody;
    target_data = [];
    trigger_data = [];
    scheduler_id = 1;
    manager_signature = "";
  };
  dispatched_at = none;
  completed_at = none;
  last_error = [];
}

abbrev codec : TaskJson
codec = record { marshal = λ t. some (text "done"); unmarshal = λ x. some sample }

abbrev stored : Cells
stored =
    ((index_key, text "7"), value (text "1-0"))
    ∷ ((dispatched, text "1-0"), message (some (text "t")))
    ∷ ((timeouts_key, text "7"), score 50)
    ∷ []

mark_task_completed-Forgotten_example :
    ((mark_task_completed memory codec stored 9 7).1 ≡ ok tt)
    × Forgotten memory memory_laws codec
        (λ s m. refl)
        7
        (text "1-0")
        (mark_task_completed memory codec stored 9 7).0
    × (get Cell-discrete (completed, text "2-0") (mark_task_completed memory codec stored 9 7).0
        ≡ some (message (some (text "done"))))
unfolding get Cell-discrete Text-discrete ℕ_discrete format_int digits
mark_task_completed-Forgotten_example =
    mark_task_completed-Forgotten memory memory_laws codec (λ s m. refl) stored 9 7 7 49
      (45 ∷ 48 ∷ []) (text "t") (text "done") (text "2-0") [] sample refl refl refl refl refl refl

abbrev unindexed : Cells
unindexed =
    ((dispatched, text "1-0"), message (some (text "t")))
    ∷ ((timeouts_key, text "7"), score 50)
    ∷ []

mark_task_completed-scanned_example :
    ((mark_task_completed memory codec unindexed 9 7).1 ≡ ok tt)
    × Leaves memory memory_laws timeouts_key unindexed
        (mark_task_completed memory codec unindexed 9 7).0
unfolding get Cell-discrete Text-discrete ℕ_discrete format_int digits find_task_in_dispatched
mark_task_completed-scanned_example =
    mark_task_completed-scanned memory memory_laws codec unindexed 9 7 sample refl refl

check_dispatched_timeouts-cleared_example :
    get Cell-discrete
      (timeouts_key, format_int 7)
      (check_dispatched_timeouts memory codec stored 60).state
    ≡ cleared
        (contains ℕ_discrete 7 (check_dispatched_timeouts memory codec stored 60).processed)
        (get Cell-discrete (timeouts_key, format_int 7) stored)
unfolding check_dispatched_timeouts get_expired_tasks time_out_all find_task_by_id
    find_task_in_dispatched get_task_by_message_id move_task_to_failed add_task_to_stream get
    Cell-discrete Text-discrete ℕ_discrete format_int digits parse_int read_digits
check_dispatched_timeouts-cleared_example =
    check_dispatched_timeouts-cleared memory memory_laws codec stored 60 (λ s ms. refl) refl 7

abbrev timed : Cells
timed = ((timeouts_key, text "8"), score 20) ∷ []

add_task_timeout-get_expired_tasks_example :
    ((get_expired_tasks memory (add_task_timeout memory timed 10 7 50).0 60 ≡ ok (8 ∷ 7 ∷ []))
      × (contains ℕ_discrete 7 (8 ∷ 7 ∷ []) ≡ leb 60 60))
    × ((get_expired_messages memory
            (add_message_expiration memory timed 10 dispatched (text "1-0") 50).0
            60
            dispatched
          ≡ ok (text "1-0" ∷ []))
        × (contains Text-discrete (text "1-0") (text "1-0" ∷ []) ≡ leb 60 60))
unfolding get put Cell-discrete Text-discrete ℕ_discrete format_int digits add_task_timeout
    add_message_expiration
add_task_timeout-get_expired_tasks_example =
    add_task_timeout-get_expired_tasks memory memory_laws timed 10 50 60 7 (8 ∷ 7 ∷ []) dispatched
      (text "1-0") (text "1-0" ∷ []) refl refl refl refl (λ e. cc) ((λ e. cc), tt)
