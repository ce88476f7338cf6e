-- ===== src/Keeper/Triggered.antt =====
-- From the condition worker to the keeper: which of a worker's notifications the keeper accepts.
use triggerx_backend.Prelude.{
  ℕ, ◌≡◌, refl, sym, ap, ◌∙◌, ◌⊎◌, inl, inr, String, Bool, true, false, str_eq, List, [], ◌∷◌, All,
  arith, if◌then◌else◌,
}
use triggerx_backend.Prelude.Int.{ℤ, ltb_ℤ, ◌<ℤ◌, ◌≤ℤ◌}
use triggerx_backend.Prelude.Results.{Result, ok}
use triggerx_backend.Float.{exact, IsInt64}
use triggerx_backend.Types.{TaskTriggerData}
use triggerx_backend.Condition.Evaluate.{CheckError, ConditionWorkerData, evaluate_condition}
use triggerx_backend.Condition.Extract.{Decoder}
use triggerx_backend.Condition.Worker.{TriggerNotification, start, Event, run}
use triggerx_backend.Condition.Counting.{IsDue, run-anytime}
use triggerx_backend.Condition.Notification.{
  Notification, ScheduleConditionJobData, create_trigger_data_from_notification,
  condition_trigger_data,
}
use triggerx_backend.Keeper.Trigger.{
  ValidationError, Chain, and_then, is_valid_condition_based_trigger, validate_trigger,
}
use triggerx_backend.Keeper.Agreement.{
  as_keeper, keeper_view, IsConditionJob, IsInRange, create_condition, keeper_view_lem,
}

-- The jobs that both sides read alike: those with one limit, and those whose condition the scheduler
-- compares with the upper limit or with both.
abbrev pub ReadAlike : ConditionWorkerData exact → Type 0
ReadAlike d =
    (d.lower_limit ≡ d.upper_limit)
    ⊎ (d.condition_type ≡ "less_than")
    ⊎ (d.condition_type ≡ "less_equal")
    ⊎ (d.condition_type ≡ "between")

-- A worker's notification has no transaction hash.
abbrev pub as_notification :
    {decoder : Decoder exact} → TriggerNotification exact decoder → Notification exact
as_notification n = record {
  trigger_tx_hash = "";
  trigger_value = n.trigger_value;
  triggered_at = n.triggered_at;
}

if-same : {A : Type 0} (b : Bool) (x y : A) → x ≡ y → (if b then x else y) ≡ x
if-same true x y h = refl
if-same false x y h = sym h

evaluate-keeper_view :
    (d : ConditionWorkerData exact) (v : ℤ)
    → ReadAlike d
    → evaluate_condition exact (keeper_view d) v ≡ evaluate_condition exact d v
unfolding evaluate_condition
evaluate-keeper_view d v h = elim h [
  | inl same ↦
      ap (λ (limit : ℤ). evaluate_condition exact (record d { lower_limit = limit }) v)
        (if-same (str_eq d.condition_type "between") d.lower_limit d.upper_limit same)
  | inr (inl less) ↦ less_than d.condition_type less
  | inr (inr (inl le)) ↦ less_equal d.condition_type le
  | inr (inr (inr both)) ↦ between d.condition_type both
]
  where
    Alike : String → Type 0
    Alike s =
        let e = record d { condition_type = s } in
        evaluate_condition exact (keeper_view e) v ≡ evaluate_condition exact e v

    less_than : (s : String) → s ≡ "less_than" → Alike s
    less_than s h = rw h refl

    less_equal : (s : String) → s ≡ "less_equal" → Alike s
    less_equal s h = rw h refl

    between : (s : String) → s ≡ "between" → Alike s
    between s h = rw h refl

above : (l v : ℤ) → l <ℤ v → ltb_ℤ l v ≡ true
above l v h = ground arith

not_above : (u v : ℤ) → v ≤ℤ u → ltb_ℤ u v ≡ false
not_above u v h = ground arith

of_greater_than :
    (d : ConditionWorkerData exact) (v : ℤ)
    → d.condition_type ≡ "greater_than"
    → evaluate_condition exact d v ≡ ok (ltb_ℤ d.lower_limit v)
unfolding evaluate_condition
of_greater_than d v t = go d.condition_type t
  where
    go :
        (s : String)
        → s ≡ "greater_than"
        → evaluate_condition exact (record d { condition_type = s }) v ≡ ok (ltb_ℤ d.lower_limit v)
    go s h = rw h refl

of_greater_than_view :
    (d : ConditionWorkerData exact) (v : ℤ)
    → d.condition_type ≡ "greater_than"
    → evaluate_condition exact (keeper_view d) v ≡ ok (ltb_ℤ d.upper_limit v)
of_greater_than_view d v t = of_greater_than (keeper_view d) v t ∙ go d.condition_type t
  where
    go :
        (s : String)
        → s ≡ "greater_than"
        → ◌≡◌ {A = Result CheckError Bool}
            (ok (ltb_ℤ (if str_eq s "between" then d.lower_limit else d.upper_limit) v))
            (ok (ltb_ℤ d.upper_limit v))
    go s h = rw h refl

module _ (chain : Chain) where
  validate_trigger-5_6 :
      (t : TaskTriggerData)
      → (t.task_definition_id ≡ 5) ⊎ (t.task_definition_id ≡ 6)
      → validate_trigger chain t ≡ and_then (is_valid_condition_based_trigger chain t) (ok true)
  unfolding validate_trigger
  validate_trigger-5_6 t h = elim h [
    | inl h5 ↦ five t.task_definition_id h5
    | inr h6 ↦ six t.task_definition_id h6
  ]
    where
      Passed : ℕ → Type 0
      Passed k =
          let u = record t { task_definition_id = k } in
          validate_trigger chain u ≡ and_then (is_valid_condition_based_trigger chain u) (ok true)

      five : (k : ℕ) → k ≡ 5 → Passed k
      five k h = rw h refl

      six : (k : ℕ) → k ≡ 6 → Passed k
      six k h = rw h refl

module _ (chain : Chain) (job : ScheduleConditionJobData exact) where
  validate_trigger-condition :
      (n : Notification exact)
      → IsConditionJob job
      → validate_trigger chain (create_trigger_data_from_notification exact job n)
        ≡ and_then
            (is_valid_condition_based_trigger chain
              (create_trigger_data_from_notification exact job n))
            (ok true)
  validate_trigger-condition n h =
      rw (create_condition job n h)
        (validate_trigger-5_6 chain (condition_trigger_data exact job n) h)

  -- For limits and values that are integers in the range of `int`, a notified value above the lower
  -- and not above the upper limit of a `greater_than` job meets the job's condition for the
  -- scheduler, and its trigger is rejected by the keeper.
  pub greater_than_rejected :
      (n : Notification exact)
      → IsConditionJob job
      → IsInRange job n
      → job.condition_worker_data.condition_type ≡ "greater_than"
      → job.condition_worker_data.lower_limit <ℤ n.trigger_value
      → n.trigger_value ≤ℤ job.condition_worker_data.upper_limit
      → (evaluate_condition exact job.condition_worker_data n.trigger_value ≡ ok true)
        × (validate_trigger chain (create_trigger_data_from_notification exact job n) ≡ ok false)
  greater_than_rejected n c r t l u =
      let d = job.condition_worker_data in
      let v = n.trigger_value in
      (
        of_greater_than d v t ∙ ap (λ (b : Bool). ok b) (above d.lower_limit v l),
        validate_trigger-condition n c
            ∙ ap (λ (r : Result ValidationError Bool). and_then r (ok true))
                (keeper_view_lem chain job n c r
                  ∙ ap as_keeper (
                      of_greater_than_view d v t
                      ∙ ap (λ (b : Bool). ok b) (not_above d.upper_limit v u))),
      )

  module _ (decoder : Decoder exact) (trigger cleanup : Bool) where
    -- For limits and notified values that are integers in the range of `int`, every notification
    -- that the worker of a condition job sends, in any interleaving of its events, passes the
    -- keeper's validation of the trigger, where the job's two limits are equal or its condition is
    -- `less_than`, `less_equal` or `between`.
    pub notifications-validated :
        IsConditionJob job
        → ReadAlike job.condition_worker_data
        → IsInt64 job.condition_worker_data.upper_limit
        → IsInt64 job.condition_worker_data.lower_limit
        → (es : List (Event exact decoder))
        → All
            (λ n. IsInt64 n.trigger_value)
            (run exact decoder
              (start exact decoder job.condition_worker_data trigger cleanup)
              es).notifications
        → All
            (λ n.
              validate_trigger chain
                (create_trigger_data_from_notification exact job (as_notification n))
              ≡ ok true)
            (run exact decoder
              (start exact decoder job.condition_worker_data trigger cleanup)
              es).notifications
    notifications-validated c h upper lower es values =
        all _ (run-anytime exact decoder job.condition_worker_data trigger cleanup es).due values
      where
        all :
            (ns : List (TriggerNotification exact decoder))
            → All (IsDue exact decoder (λ t. Unit {0}) job.condition_worker_data) ns
            → All (λ n. IsInt64 n.trigger_value) ns
            → All
                (λ n.
                  validate_trigger chain
                    (create_trigger_data_from_notification exact job (as_notification n))
                  ≡ ok true)
                ns
        all [] a b = tt
        all (n ∷ ns) a b = (one, all ns a.1 b.1)
          where
            one :
                validate_trigger chain
                  (create_trigger_data_from_notification exact job (as_notification n))
                ≡ ok true
            one =
                validate_trigger-condition (as_notification n) c
                ∙ ap (λ (r : Result ValidationError Bool). and_then r (ok true))
                    (keeper_view_lem chain job (as_notification n) c (upper, lower, b.0)
                      ∙ ap as_keeper (evaluate-keeper_view job.condition_worker_data _ h ∙ a.0.0))
