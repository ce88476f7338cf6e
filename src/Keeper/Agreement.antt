-- ===== src/Keeper/Agreement.antt =====
-- The condition scheduler against the keeper that validates its trigger: `evaluateCondition` decides
-- by the job's data, `IsValidConditionBasedTrigger` by the trigger data that
-- `createTriggerDataFromNotification` makes of it. The values are integers; where
-- they are in the range of `int`, the conversion of both limits and the value loses nothing.
use triggerx_backend.Prelude.{
  ℕ, ◌≡◌, ◌∙◌, ap, refl, sym, subst, str_eq_iff, ◌⊎◌, inl, inr, String, Bool, false, ◌||◌, str_eq,
  ltb, ◌==◌, arith, if◌then◌else◌, Bool-cases,
}
use triggerx_backend.Prelude.Results.{Result, ok, err, panic}
use triggerx_backend.Float.{exact, IsInt64, to_int64, to_int64-IsInt64}
use triggerx_backend.Types.{TaskTriggerData}
use triggerx_backend.Prelude.Int.{ℤ}
use triggerx_backend.Condition.Evaluate.{CheckError, ConditionWorkerData, evaluate_condition}
use triggerx_backend.Condition.Notification.{
  Notification, ScheduleConditionJobData, create_trigger_data_from_notification,
  condition_trigger_data, event_trigger_data, base_trigger_data,
}
use triggerx_backend.Keeper.Trigger.{ValidationError, Chain, is_valid_condition_based_trigger}

-- The scheduler's verdict as the keeper would give it: a type that the scheduler refuses is not met.
abbrev pub as_keeper : Result CheckError Bool → Result ValidationError Bool
as_keeper (ok b) = ok b
as_keeper (err e) = ok false
as_keeper panic = panic

-- The job as the keeper reads it: but for `between`, the upper limit is the only one.
abbrev pub keeper_view : ConditionWorkerData exact → ConditionWorkerData exact
keeper_view d = record d {
  lower_limit = if str_eq d.condition_type "between" then d.lower_limit else d.upper_limit;
}

abbrev pub IsConditionJob : ScheduleConditionJobData exact → Type 0
IsConditionJob job = (job.task_definition_id ≡ 5) ⊎ (job.task_definition_id ≡ 6)

never_before_zero : (n : ℕ) → ltb n 0 ≡ false
never_before_zero n = ground arith

pub create_condition :
    (job : ScheduleConditionJobData exact) (n : Notification exact)
    → IsConditionJob job
    → create_trigger_data_from_notification exact job n ≡ condition_trigger_data exact job n
unfolding create_trigger_data_from_notification
create_condition job n (inl h) = go job.task_definition_id h
  where
    go :
        (k : ℕ)
        → k ≡ 5
        → (if (k == 5) || (k == 6)
            then condition_trigger_data exact job n
            else if (k == 3) || (k == 4)
            then event_trigger_data exact job n
            else base_trigger_data exact job n)
          ≡ condition_trigger_data exact job n
    go k h = rw h refl
create_condition job n (inr h) = go job.task_definition_id h
  where
    go :
        (k : ℕ)
        → k ≡ 6
        → (if (k == 5) || (k == 6)
            then condition_trigger_data exact job n
            else if (k == 3) || (k == 4)
            then event_trigger_data exact job n
            else base_trigger_data exact job n)
          ≡ condition_trigger_data exact job n
    go k h = rw h refl

-- Both limits and the value are in the range of `int`.
abbrev pub IsInRange : ScheduleConditionJobData exact → Notification exact → Type 0
IsInRange job n =
    IsInt64 job.condition_worker_data.upper_limit
    × IsInt64 job.condition_worker_data.lower_limit
    × IsInt64 n.trigger_value

-- The trigger data with the numbers unconverted.
abbrev unconverted : ScheduleConditionJobData exact → Notification exact → TaskTriggerData
unconverted job n = record (condition_trigger_data exact job n) {
  condition_upper_limit = job.condition_worker_data.upper_limit;
  condition_lower_limit = job.condition_worker_data.lower_limit;
  condition_satisfied_value = n.trigger_value;
}

condition_trigger_data-unconverted :
    (job : ScheduleConditionJobData exact) (n : Notification exact)
    → IsInRange job n
    → condition_trigger_data exact job n ≡ unconverted job n
condition_trigger_data-unconverted job n r =
    ap (with_numbers (to_int64 d.upper_limit) (to_int64 d.lower_limit))
      (to_int64-IsInt64 n.trigger_value r.2)
    ∙ ap (λ (l : ℤ). with_numbers (to_int64 d.upper_limit) l n.trigger_value)
        (to_int64-IsInt64 d.lower_limit r.1)
    ∙ ap (λ (u : ℤ). with_numbers u d.lower_limit n.trigger_value)
        (to_int64-IsInt64 d.upper_limit r.0)
  where
    d : ConditionWorkerData exact
    d = job.condition_worker_data

    with_numbers : ℤ → ℤ → ℤ → TaskTriggerData
    with_numbers u l v = record (condition_trigger_data exact job n) {
      condition_upper_limit = u;
      condition_lower_limit = l;
      condition_satisfied_value = v;
    }

-- The seven condition types, and none of them.
abbrev pub IsNone : String → Type 0
IsNone s =
    (str_eq s "greater_than" ≡ false)
    × (str_eq s "less_than" ≡ false)
    × (str_eq s "between" ≡ false)
    × (str_eq s "equals" ≡ false)
    × (str_eq s "not_equals" ≡ false)
    × (str_eq s "greater_equal" ≡ false)
    × (str_eq s "less_equal" ≡ false)

by_type :
    (P : String → Type 0)
    → P "greater_than"
    → P "less_than"
    → P "between"
    → P "equals"
    → P "not_equals"
    → P "greater_equal"
    → P "less_equal"
    → ((s : String) → IsNone s → P s)
    → (s : String) → P s
by_type P a b c d e f g none s = is "greater_than" a λ h1. is "less_than" b λ h2.
    is "between" c λ h3. is "equals" d λ h4.
      is "not_equals" e
        λ h5. is "greater_equal" f λ h6. is "less_equal" g λ h7. none s (h1, h2, h3, h4, h5, h6, h7)
  where
    is : (t : String) → P t → (str_eq s t ≡ false → P s) → P s
    is t p k = elim (Bool-cases (str_eq s t)) [
      | inl h ↦ subst P (sym ((str_eq_iff s t).0 h)) p
      | inr h ↦ k h
    ]

-- The job and its trigger, with another condition type.
abbrev pub with_type : String → ScheduleConditionJobData exact → ScheduleConditionJobData exact
with_type s job = record job {
  condition_worker_data = record job.condition_worker_data { condition_type = s };
}

module _ (chain : Chain) (job : ScheduleConditionJobData exact) (n : Notification exact) where
  Agrees : String → Type 0
  Agrees s =
      let j = with_type s job in
      is_valid_condition_based_trigger chain (unconverted j n)
      ≡ as_keeper (evaluate_condition exact (keeper_view j.condition_worker_data) n.trigger_value)

  agrees : (s : String) → Agrees s
  unfolding Agrees is_valid_condition_based_trigger evaluate_condition
  agrees =
      let z = never_before_zero job.condition_worker_data.expiration_time in
      by_type Agrees (rw z refl) (rw z refl) (rw z refl) (rw z refl) (rw z refl) (rw z refl)
        (rw z refl) (λ s h. rw (z, h.0, h.1, h.2, h.3, h.4, h.5, h.6) refl)

  -- For limits and values that are integers in the range of `int`, the keeper's verdict on the trigger data of a condition job's
  -- notification is the scheduler's verdict on the notified value for the job whose lower limit is
  -- replaced by its upper limit, unless the condition is `between`; a type that the scheduler
  -- refuses counts as not met.
  pub keeper_view_lem :
      IsConditionJob job
      → IsInRange job n
      → is_valid_condition_based_trigger chain (create_trigger_data_from_notification exact job n)
        ≡ as_keeper
            (evaluate_condition exact (keeper_view job.condition_worker_data) n.trigger_value)
  unfolding Agrees
  keeper_view_lem h r =
      ap (is_valid_condition_based_trigger chain)
        (create_condition job n h ∙ condition_trigger_data-unconverted job n r)
      ∙ agrees job.condition_worker_data.condition_type
