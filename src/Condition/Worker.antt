-- ===== src/Condition/Worker.antt =====
-- internal/schedulers/condition/scheduler/worker: `ConditionWorker`, its loop and `Stop`
-- (init_condition.go) and `checkCondition` (monitor_condition.go). The loop and the goroutines that
-- it starts are interleaved by a list of events: a tick of the ticker with the times and the reply
-- of the value's source, a run of `Stop`, and the loop's look at the cancelled context. Of the two
-- callbacks the worker counts the calls; their errors are only logged. The counter of met conditions
-- does not wrap: it grows by one a second.
use triggerx_backend.Prelude.{
  ℕ, ◌+◌, Bool, true, false, Option, none, some, List, [], ◌∷◌, ltb, if◌then◌else◌,
}
use triggerx_backend.Prelude.Results.{Result, ok, err, panic}
use triggerx_backend.Float.{Float64}
use triggerx_backend.Condition.Evaluate.{CheckError, ConditionWorkerData, evaluate_condition}
use triggerx_backend.Condition.Extract.{Reply, Decoder, fetch_value}

module _ (float : Float64) (decoder : Decoder float) where
  open float use {F}
  open decoder use {Body}

  -- A notification of the scheduler: the value and the time.
  pub record TriggerNotification : Type 0 where
    pub trigger_value : F
    pub triggered_at : ℕ

  -- The readings of the clock in one turn of the loop: for the expiration, after the fetch, and for
  -- the notification.
  pub record Clock : Type 0 where
    pub ticked_at : ℕ
    pub fetched_at : ℕ
    pub triggered_at : ℕ

  pub record ConditionWorker : Type 0 where
    pub worker_data : ConditionWorkerData float
    pub has_trigger_callback : Bool
    pub has_cleanup_callback : Bool
    pub is_active : Bool
    pub last_value : Option F
    pub last_check : Option ℕ
    pub condition_met : ℕ
    pub cancelled : Bool
    pub looping : Bool
    -- The goroutines `go w.Stop()` that have not run.
    pub pending_stops : ℕ
    pub notifications : List TriggerNotification
    pub cleanups : ℕ

  -- The worker as `Start` leaves it at the head of its loop.
  unfoldable pub start : ConditionWorkerData float → Bool → Bool → ConditionWorker
  start d trigger cleanup = record {
    worker_data = d;
    has_trigger_callback = trigger;
    has_cleanup_callback = cleanup;
    is_active = true;
    last_value = none;
    last_check = none;
    condition_met = 0;
    cancelled = false;
    looping = true;
    pending_stops = 0;
    notifications = [];
    cleanups = 0;
  }

  -- `TriggerCallback`, where there is one.
  abbrev pub told : Bool → TriggerNotification → List TriggerNotification → List TriggerNotification
  told true n ns = n ∷ ns
  told false n ns = ns

  abbrev pub satisfied : ConditionWorker → F → ℕ → ConditionWorker
  satisfied w v now = record w {
    condition_met = w.condition_met + 1;
    notifications =
        told w.has_trigger_callback (record { trigger_value = v; triggered_at = now })
          w.notifications;
    pending_stops = if w.worker_data.recurring then w.pending_stops else w.pending_stops + 1;
  }

  abbrev pub evaluated :
      ConditionWorker → F → ℕ → Result CheckError Bool → ConditionWorker × Option CheckError
  evaluated w v now (ok true) = (satisfied w v now, none)
  evaluated w v now (ok false) = (record w { condition_met = 0 }, none)
  evaluated w v now (err e) = (w, some e)
  evaluated w v now panic = (w, none)

  abbrev pub fetched :
      ConditionWorker → Clock → Result CheckError F → ConditionWorker × Option CheckError
  fetched w c (ok v) =
      evaluated (record w { last_value = some v; last_check = some c.fetched_at }) v c.triggered_at
        (evaluate_condition float w.worker_data v)
  fetched w c (err e) = (w, some e)
  fetched w c panic = (w, none)

  unfoldable pub check_condition :
      ConditionWorker → Clock → Reply float Body → ConditionWorker × Option CheckError
  check_condition w c r = fetched w c (fetch_value float decoder w.worker_data r)

  -- One tick of the loop.
  unfoldable pub tick : ConditionWorker → Clock → Reply float Body → ConditionWorker
  unfolding check_condition
  tick w c r =
      if w.looping
      then (if ltb w.worker_data.expiration_time c.ticked_at
          then record w { looping = false; pending_stops = w.pending_stops + 1 }
          else (check_condition w c r).0)
      else w

  unfoldable pub stop : ConditionWorker → ConditionWorker
  stop w =
      if w.is_active
      then record w {
        cancelled = true;
        is_active = false;
        cleanups = if w.has_cleanup_callback then w.cleanups + 1 else w.cleanups;
      }
      else w

  -- The loop ends where it finds the context cancelled.
  unfoldable pub see_done : ConditionWorker → ConditionWorker
  see_done w = if w.cancelled then record w { looping = false } else w

  pub data Event : Type 0 where
    ticks : Clock → Reply float Body → Event
    stops : Event
    sees_done : Event

  unfoldable pub step : ConditionWorker → Event → ConditionWorker
  unfolding tick stop see_done
  step w (ticks c r) = tick w c r
  step w stops = stop w
  step w sees_done = see_done w

  unfoldable pub run : ConditionWorker → List Event → ConditionWorker
  run w [] = w
  run w (e ∷ es) = run (step w e) es
