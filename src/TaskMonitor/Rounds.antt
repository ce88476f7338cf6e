-- ===== src/TaskMonitor/Rounds.antt =====
-- One round of the timeout worker: which timeouts are gone after it.
use triggerx_backend.Prelude.{ℕ, ◌≡◌, refl, ap, ◌∙◌, Bool, true, false, List, [], ◌∷◌, ℕ_discrete}
use triggerx_backend.Prelude.Maps.{contains}
use triggerx_backend.Prelude.Results.{Result, ok, err, panic}
use triggerx_backend.Prelude.Texts.{Text, text}
use triggerx_backend.Prelude.Decimal.{format_int}
use triggerx_backend.TaskMonitor.Redis.{Redis, RedisLaws, Command}
use triggerx_backend.TaskMonitor.Data.{
  TaskError, TaskStreamData, TaskJson, dispatched, timeouts_key, failed,
}
use triggerx_backend.TaskMonitor.Expiration.{remove_multiple_task_timeouts, get_expired_tasks}
use triggerx_backend.TaskMonitor.Index.{find_task_by_id}
use triggerx_backend.TaskMonitor.Streams.{move_task_to_failed}
use triggerx_backend.TaskMonitor.Timeouts.{
  Round, acknowledge_timeout, after_move, time_out, time_out_next, time_out_all, clear_processed,
  time_out_expired, check_dispatched_timeouts,
}
use triggerx_backend.TaskMonitor.Leaves.{
  Leaves, Leaves-trans, remove_task_index-Leaves, ack_task_processed-Leaves,
  add_task_to_stream-Leaves,
}
use triggerx_backend.TaskMonitor.Kept.{
  failed-timeouts, dispatched-timeouts, index-timeouts, expiration-timeouts, zrem-written, cleared,
}

module _ {R : Type 0} (api : Redis R) (laws : RedisLaws api) (json : TaskJson) where
  acknowledge_timeout-Leaves :
      (r : R) (message : Text)
      → Leaves api laws timeouts_key r (acknowledge_timeout api json r message)
  acknowledge_timeout-Leaves r [] = λ m. refl
  acknowledge_timeout-Leaves r (x ∷ message) =
      ack_task_processed-Leaves api laws timeouts_key r dispatched (text "timeout-checker")
        (x ∷ message) dispatched-timeouts (expiration-timeouts dispatched)

  after_move-Leaves :
      (w : Round R) (id : ℕ) (message : Text) (s : R × Result TaskError (Unit {0}))
      → Leaves api laws timeouts_key w.state s.0
      → Leaves api laws timeouts_key w.state (after_move api json w id message s).state
  after_move-Leaves w id message (s, ok done) h = Leaves-trans api laws timeouts_key w.state s _ h (
      Leaves-trans api laws timeouts_key s _ _ (acknowledge_timeout-Leaves s message)
        (remove_task_index-Leaves api laws json timeouts_key _ id index-timeouts))
  after_move-Leaves w id message (s, err e) h = h
  after_move-Leaves w id message (s, panic) h = h

  time_out-Leaves :
      (w : Round R) (now id : ℕ) (found : Result TaskError (TaskStreamData × Text))
      → Leaves api laws timeouts_key w.state (time_out api json w now id found).state
  unfolding move_task_to_failed
  time_out-Leaves w now id (ok (t, message)) = after_move-Leaves w id message _ (
      add_task_to_stream-Leaves api laws json timeouts_key w.state now failed _ failed-timeouts
        (expiration-timeouts failed))
  time_out-Leaves w now id (err e) = λ m. refl
  time_out-Leaves w now id panic = λ m. refl

  time_out_next-Leaves :
      (b : Bool) (w : Round R) (now id : ℕ)
      → Leaves api laws timeouts_key w.state (time_out_next api json b w now id).state
  time_out_next-Leaves true w now id = λ m. refl
  time_out_next-Leaves false w now id =
      time_out-Leaves w now id (find_task_by_id api json w.state id)

  time_out_all-Leaves :
      (w : Round R) (now : ℕ) (ids : List ℕ)
      → Leaves api laws timeouts_key w.state (time_out_all api json w now ids).state
  unfolding time_out_all
  time_out_all-Leaves w now [] = λ m. refl
  time_out_all-Leaves w now (id ∷ ids) =
      Leaves-trans api laws timeouts_key w.state _ _ (time_out_next-Leaves w.panicked w now id)
        (time_out_all-Leaves (time_out_next api json w.panicked w now id) now ids)

  removed-cleared :
      (r : R) (ids : List ℕ)
      → ((s : R) (ms : List Command) → (api.pipeline s ms).1 ≡ true)
      → (id : ℕ)
      → laws.look (remove_multiple_task_timeouts api r ids).0 (timeouts_key, format_int id)
        ≡ cleared (contains ℕ_discrete id ids) (laws.look r (timeouts_key, format_int id))
  unfolding remove_multiple_task_timeouts contains
  removed-cleared r [] confirms id = refl
  removed-cleared r (x ∷ ids) confirms id =
      laws.piped r _ (timeouts_key, format_int id) (confirms r _)
      ∙ zrem-written (x ∷ ids) id (laws.look r (timeouts_key, format_int id))

  -- Where Redis confirms the pipelines and no task makes the worker panic: after a round the tasks
  -- that it has processed have no timeout, and the timeouts of all others are as before it.
  pub check_dispatched_timeouts-cleared :
      (r : R) (now : ℕ)
      → ((s : R) (ms : List Command) → (api.pipeline s ms).1 ≡ true)
      → (check_dispatched_timeouts api json r now).panicked ≡ false
      → (id : ℕ)
      → laws.look (check_dispatched_timeouts api json r now).state (timeouts_key, format_int id)
        ≡ cleared
            (contains ℕ_discrete id (check_dispatched_timeouts api json r now).processed)
            (laws.look r (timeouts_key, format_int id))
  unfolding check_dispatched_timeouts contains
  check_dispatched_timeouts-cleared r now confirms calm id = go (get_expired_tasks api r now) calm
    where
      finish :
          (b : Bool) (w : Round R)
          → w.panicked ≡ b
          → Leaves api laws timeouts_key r w.state
          → (clear_processed api json b w).panicked ≡ false
          → laws.look (clear_processed api json b w).state (timeouts_key, format_int id)
            ≡ cleared
                (contains ℕ_discrete id (clear_processed api json b w).processed)
                (laws.look r (timeouts_key, format_int id))
      finish true w e h q = cc
      finish false w e h q =
          removed-cleared w.state w.processed confirms id
          ∙ ap (cleared (contains ℕ_discrete id w.processed)) (h (format_int id))

      go :
          (o : Result TaskError (List ℕ))
          → (time_out_expired api json r now o).panicked ≡ false
          → laws.look (time_out_expired api json r now o).state (timeouts_key, format_int id)
            ≡ cleared
                (contains ℕ_discrete id (time_out_expired api json r now o).processed)
                (laws.look r (timeouts_key, format_int id))
      go (ok ids) q = finish _ _ refl (time_out_all-Leaves _ now ids) q
      go (err e) q = refl
      go panic q = cc
