-- ===== src/Condition/Routes.antt =====
-- internal/schedulers/condition/scheduler/worker/monitor_condition.go: the key path of a response.
use triggerx_backend.Prelude.{
  ◌≡◌, refl, Bool, true, false, Option, some, none, str_eq, if◌then◌else◌,
}
use triggerx_backend.Float.{Float64}
use triggerx_backend.Condition.Evaluate.{ConditionWorkerData}
use triggerx_backend.Condition.Extract.{
  ValueResponse, Decoder, extract_fallback, extract_value_by_key_path, extract_value_from_response,
}

module _ (float : Float64) (decoder : Decoder float) where
  open float use {F}
  open decoder use {Body, value_response}

  pick :
      (b : Bool) (o f : Option F)
      → f ≡ o
      → (if b then f else (elim o [ some x ↦ some x | none ↦ f ])) ≡ o
  pick true o f h = h
  pick false none f h = h
  pick false (some x) f h = refl

  of_fallback :
      (d : ConditionWorkerData float) (body : Body) (r : ValueResponse float)
      → value_response body ≡ some r
      → str_eq r.route "" ≡ false
      → extract_fallback float decoder d body
        ≡ extract_value_by_key_path float decoder body d.selected_key_route
  unfolding extract_fallback
  of_fallback d body r h e = rw (h, extract_fallback, e) refl

  -- Where a response carries a key path of its own, the value is read by the job's key path alone:
  -- the result is what that path finds in the body, whatever the response's path and its other
  -- fields.
  pub extract_value-own_route :
      (d : ConditionWorkerData float) (body : Body) (r : ValueResponse float)
      → value_response body ≡ some r
      → str_eq r.route "" ≡ false
      → extract_value_from_response float decoder d body
        ≡ extract_value_by_key_path float decoder body d.selected_key_route
  unfolding extract_value_from_response
  extract_value-own_route d body r h e =
      pick (str_eq d.selected_key_route "")
        (extract_value_by_key_path float decoder body d.selected_key_route) _
        (of_fallback d body r h e)
