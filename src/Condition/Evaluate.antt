-- ===== src/Condition/Evaluate.antt =====
-- internal/schedulers/condition/scheduler/worker: the data of a condition job (with pkg/types/
-- schedulers.go) and `evaluateCondition` of monitor_condition.go.
use triggerx_backend.Prelude.{ℕ, String, Bool, not, ◌&&◌, str_eq, if◌then◌else◌}
use triggerx_backend.Prelude.Results.{Result, ok, err}
use triggerx_backend.Float.{Float64}

-- The errors of a check, in the order of its stages.
pub data CheckError : Type 0 where
  unsupported_source_type request_failed bad_status read_failed : CheckError
  no_numeric_value invalid_static_value unsupported_condition_type : CheckError

module _ (float : Float64) where
  open float use {F, lt, le, eq}

  -- The job's id does not matter to the check.
  pub record ConditionWorkerData : Type 0 where
    pub expiration_time : ℕ
    pub recurring : Bool
    pub condition_type : String
    pub selected_key_route : String
    pub upper_limit : F
    pub lower_limit : F
    pub value_source_type : String
    pub value_source_url : String

  unfoldable pub evaluate_condition : ConditionWorkerData → F → Result CheckError Bool
  evaluate_condition d v =
      if str_eq d.condition_type "greater_than"
      then ok (lt d.lower_limit v)
      else if str_eq d.condition_type "less_than"
      then ok (lt v d.upper_limit)
      else if str_eq d.condition_type "between"
      then ok (le d.lower_limit v && le v d.upper_limit)
      else if str_eq d.condition_type "equals"
      then ok (eq v d.lower_limit)
      else if str_eq d.condition_type "not_equals"
      then ok (not (eq v d.lower_limit))
      else if str_eq d.condition_type "greater_equal"
      then ok (le d.lower_limit v)
      else if str_eq d.condition_type "less_equal"
      then ok (le v d.upper_limit)
      else err unsupported_condition_type
