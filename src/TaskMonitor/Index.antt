-- ===== src/TaskMonitor/Index.antt =====
-- internal/taskmonitor/tasks/task_index.go, with the scan of task_add.go that it falls back on: from
-- the id of a task to its message.
use triggerx_backend.Prelude.{
  ℕ, ◌+◌, ◌-◌, Bool, true, false, Option, none, some, List, [], ◌∷◌, if◌then◌else◌, ◌==◌, length,
  drop,
}
use triggerx_backend.Prelude.Results.{Result, ok, err, panic}
use triggerx_backend.Prelude.Texts.{Text}
use triggerx_backend.Prelude.Decimal.{format_int}
use triggerx_backend.TaskMonitor.Redis.{Redis, hset, hdel, set_ttl}
use triggerx_backend.TaskMonitor.Data.{
  TaskError, redis_failed, no_message, no_task_data, not_decoded, not_found, TaskStreamData,
  TaskJson, index_key, dispatched, hour,
}
use triggerx_backend.TaskMonitor.Expiration.{confirmed}

-- `TaskID[0]`, also where only a log line names it.
abbrev pub first_id : TaskStreamData → Option ℕ
first_id t = elim t.send_task_data_to_keeper.task_id [ [] ↦ none | id ∷ ids ↦ some id ]

abbrev pub logged : {A : Type 0} → Option ℕ → Result TaskError A → Result TaskError A
logged none result = panic
logged (some id) result = result

-- The last `limit` elements.
abbrev pub most_recent : {A : Type 0} → ℕ → List A → List A
most_recent limit xs = drop (length xs - limit) xs

module _ {R : Type 0} (api : Redis R) (json : TaskJson) where
  abbrev pub stored_index : R × Bool → R × Result TaskError (Unit {0})
  stored_index (r, true) = ((api.send r (set_ttl index_key (hour + hour))).0, ok tt)
  stored_index (r, false) = (r, err redis_failed)

  unfoldable pub store_task_index : R → ℕ → Text → R × Result TaskError (Unit {0})
  unfolding format_int
  store_task_index r id message = stored_index (api.send r (hset index_key (format_int id) message))

  unfoldable pub remove_task_index : R → ℕ → R × Result TaskError (Unit {0})
  unfolding format_int
  remove_task_index r id =
      let s = api.send r (hdel index_key (format_int id)) in (s.0, confirmed s.1)

  abbrev pub decoded : Option TaskStreamData → Result TaskError TaskStreamData
  decoded none = err not_decoded
  decoded (some t) = logged (first_id t) (ok t)

  abbrev pub first_message : Option (List (Option Text)) → Result TaskError TaskStreamData
  first_message none = err redis_failed
  first_message (some []) = err no_message
  first_message (some (none ∷ ms)) = err no_task_data
  first_message (some (some text ∷ ms)) = decoded (json.unmarshal text)

  unfoldable pub get_task_by_message_id : R → Text → Result TaskError TaskStreamData
  get_task_by_message_id r id = first_message (api.xrange r dispatched id)

  -- One message of the scan: a task without ids makes it panic.
  abbrev pub scan_task :
      ℕ → Option TaskStreamData → Result TaskError TaskStreamData → Result TaskError TaskStreamData
  scan_task id none rest = rest
  scan_task id (some t) rest = elim (first_id t) [
    | none ↦ panic
    | some first ↦ if first == id then ok t else rest
  ]

  abbrev pub scan_messages : ℕ → List (Option Text) → Result TaskError TaskStreamData
  scan_messages id [] = err not_found
  scan_messages id (none ∷ ms) = scan_messages id ms
  scan_messages id (some text ∷ ms) = scan_task id (json.unmarshal text) (scan_messages id ms)

  abbrev pub scan_recent : ℕ → Option (List (Option Text)) → Result TaskError TaskStreamData
  scan_recent id none = err redis_failed
  scan_recent id (some ms) = scan_messages id (most_recent 1000 ms)

  unfoldable pub find_task_in_dispatched : R → ℕ → Result TaskError TaskStreamData
  find_task_in_dispatched r id = scan_recent id (api.xrange_all r dispatched)

  abbrev pub with_id :
      Text → Result TaskError TaskStreamData → Result TaskError (TaskStreamData × Text)
  with_id message (ok t) = ok (t, message)
  with_id message (err e) = err e
  with_id message panic = panic

  abbrev pub find_indexed : R → ℕ → Option (Option Text) → Result TaskError (TaskStreamData × Text)
  find_indexed r id none = err redis_failed
  find_indexed r id (some none) = with_id [] (find_task_in_dispatched r id)
  find_indexed r id (some (some message)) = with_id message (get_task_by_message_id r message)

  -- The task with its message's id, which is empty where the scan has found it.
  unfoldable pub find_task_by_id : R → ℕ → Result TaskError (TaskStreamData × Text)
  unfolding format_int
  find_task_by_id r id = find_indexed r id (api.hget r index_key (format_int id))
