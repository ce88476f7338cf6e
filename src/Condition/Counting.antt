-- ===== src/Condition/Counting.antt =====
-- What the worker tells the scheduler, over any interleaving of its events.
use triggerx_backend.Prelude.{
  ℕ, ◌+◌, ◌≤◌, ◌≡◌, ◌∙◌, refl, sym, ap, Bool, true, false, some, List, [], ◌∷◌, ltb, if◌then◌else◌,
  arith, All, not,
}
use triggerx_backend.Prelude.Results.{Result, ok, err, panic}
use triggerx_backend.Float.{Float64}
use triggerx_backend.Condition.Evaluate.{CheckError, ConditionWorkerData, evaluate_condition}
use triggerx_backend.Condition.Extract.{Reply, Decoder}
use triggerx_backend.Condition.Worker.{
  Clock, TriggerNotification, ConditionWorker, start, told, evaluated, fetched, check_condition,
  tick, Event, ticks, stops, sees_done, step, run,
}

module _ (float : Float64) (decoder : Decoder float) (Timely : ℕ → Type 0) where
  open float use {F}
  open decoder use {Body}

  -- A notification that is due: its value met the job's condition, at a time as asked for.
  abbrev pub IsDue : ConditionWorkerData float → TriggerNotification float decoder → Type 0
  IsDue d n = (evaluate_condition float d n.trigger_value ≡ ok true) × Timely n.triggered_at

  -- A turn that finds the job unexpired notifies at such a time.
  abbrev pub IsTimely : ConditionWorkerData float → Event float decoder → Type 0
  IsTimely d (ticks c r) = ltb d.expiration_time c.ticked_at ≡ false → Timely c.triggered_at
  IsTimely d stops = Unit
  IsTimely d sees_done = Unit

  pub record Inv (d : ConditionWorkerData float) (w : ConditionWorker float decoder) : Type 0 where
    pub same_data : w.worker_data ≡ d
    pub due : All (IsDue d) w.notifications
    pub cleaned_once : w.cleanups ≤ 1
    pub active_uncleaned : w.is_active ≡ true → w.cleanups ≡ 0
    pub active_live : w.is_active ≡ not w.cancelled

  All-told :
      (d : ConditionWorkerData float) (b : Bool) (n : TriggerNotification float decoder)
      (ns : List (TriggerNotification float decoder))
      → IsDue d n
      → All (IsDue d) ns
      → All (IsDue d) (told float decoder b n ns)
  All-told d true n ns h a = (h, a)
  All-told d false n ns h a = a

  evaluated-Inv :
      (d : ConditionWorkerData float) (w : ConditionWorker float decoder) (v : F) (now : ℕ)
      (r : Result CheckError Bool)
      → evaluate_condition float d v ≡ r
      → Timely now
      → Inv d w
      → Inv d (evaluated float decoder w v now r).0
  evaluated-Inv d w v now (ok true) e t i = record {
    same_data = i.same_data;
    due = All-told d w.has_trigger_callback _ w.notifications (e, t) i.due;
    cleaned_once = i.cleaned_once;
    active_uncleaned = i.active_uncleaned;
    active_live = i.active_live;
  }
  evaluated-Inv d w v now (ok false) e t i = ground arith
  evaluated-Inv d w v now (err x) e t i = i
  evaluated-Inv d w v now panic e t i = i

  fetched-Inv :
      (d : ConditionWorkerData float) (w : ConditionWorker float decoder) (c : Clock float decoder)
      (r : Result CheckError F)
      → Timely c.triggered_at
      → Inv d w
      → Inv d (fetched float decoder w c r).0
  fetched-Inv d w c (ok v) t i =
      evaluated-Inv d (record w { last_value = some v; last_check = some c.fetched_at }) v
        c.triggered_at _ (rw i.same_data refl) t (ground arith)
  fetched-Inv d w c (err x) t i = i
  fetched-Inv d w c panic t i = i

  ticked-Inv :
      (d : ConditionWorkerData float) (w : ConditionWorker float decoder) (c : Clock float decoder)
      (r : Result CheckError F) (looping late : Bool)
      → (late ≡ false → Timely c.triggered_at)
      → Inv d w
      → Inv d (
          if looping
          then (if late
              then record w { looping = false; pending_stops = w.pending_stops + 1 }
              else (fetched float decoder w c r).0)
          else w)
  ticked-Inv d w c r true true t i = record {
    same_data = i.same_data;
    due = i.due;
    cleaned_once = i.cleaned_once;
    active_uncleaned = i.active_uncleaned;
    active_live = i.active_live;
  }
  ticked-Inv d w c r true false t i = fetched-Inv d w c r (t refl) i
  ticked-Inv d w c r false true t i = i
  ticked-Inv d w c r false false t i = i

  tick-Inv :
      (d : ConditionWorkerData float) (w : ConditionWorker float decoder) (c : Clock float decoder)
      (r : Reply float Body)
      → IsTimely d (ticks c r)
      → Inv d w
      → Inv d (tick float decoder w c r)
  unfolding tick check_condition
  tick-Inv d w c r t i =
      ticked-Inv d w c _ w.looping (ltb w.worker_data.expiration_time c.ticked_at)
        (λ e. t (
          ap (λ (x : ConditionWorkerData float). ltb x.expiration_time c.ticked_at)
            (sym i.same_data)
          ∙ e))
        i

  step-Inv :
      (d : ConditionWorkerData float) (w : ConditionWorker float decoder) (e : Event float decoder)
      → IsTimely d e
      → Inv d w
      → Inv d (step float decoder w e)
  unfolding step
  step-Inv d w (ticks c r) t i = tick-Inv d w c r t i
  step-Inv d w stops t i = ground arith
  step-Inv d w sees_done t i = ground arith

  run-Inv :
      (d : ConditionWorkerData float) (w : ConditionWorker float decoder)
      (es : List (Event float decoder))
      → All (IsTimely d) es
      → Inv d w
      → Inv d (run float decoder w es)
  unfolding run
  run-Inv d w [] t i = i
  run-Inv d w (e ∷ es) t i = run-Inv d (step float decoder w e) es t.1 (step-Inv d w e t.0 i)

  pub run-timely :
      (d : ConditionWorkerData float) (trigger cleanup : Bool) (es : List (Event float decoder))
      → All (IsTimely d) es
      → Inv d (run float decoder (start float decoder d trigger cleanup) es)
  unfolding start
  run-timely d trigger cleanup es t = run-Inv d _ es t (record {
    same_data = refl;
    due = tt;
    cleaned_once = omega arith;
    active_uncleaned = λ e. refl;
    active_live = refl;
  })

module _ (float : Float64) (decoder : Decoder float) where
  abbrev pub By : ℕ → ℕ → Type 0
  By limit t = t ≤ limit

  -- From the look at the expiration to the notification it takes at most so long.
  abbrev pub Within : ℕ → Event float decoder → Type 0
  Within k (ticks c r) = c.triggered_at ≤ c.ticked_at + k
  Within k stops = Unit
  Within k sees_done = Unit

  All-anytime :
      (d : ConditionWorkerData float) (es : List (Event float decoder))
      → All (IsTimely float decoder (λ t. Unit {0}) d) es
  All-anytime d [] = tt
  All-anytime d (ticks c r ∷ es) = ((λ e. tt), All-anytime d es)
  All-anytime d (stops ∷ es) = (tt, All-anytime d es)
  All-anytime d (sees_done ∷ es) = (tt, All-anytime d es)

  -- The same at any speed.
  pub run-anytime :
      (d : ConditionWorkerData float) (trigger cleanup : Bool) (es : List (Event float decoder))
      → Inv float decoder
          (λ t. Unit {0})
          d
          (run float decoder (start float decoder d trigger cleanup) es)
  run-anytime d trigger cleanup es =
      run-timely float decoder (λ t. Unit {0}) d trigger cleanup es (All-anytime d es)
