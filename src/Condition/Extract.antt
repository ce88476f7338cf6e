-- ===== src/Condition/Extract.antt =====
-- internal/schedulers/condition/scheduler/worker/monitor_condition.go: the number that a response's
-- body holds, and the fetch of it. Decoding JSON, parsing numbers and the HTTP client are a
-- parameter, `Decoder`.
use triggerx_backend.Prelude.{
  ℕ, zero, suc, String, Bool, not, Option, none, some, List, [], ◌∷◌, str_eq, ◌==◌, if◌then◌else◌,
}
use triggerx_backend.Prelude.Int.{ℤ, pos, negsuc}
use triggerx_backend.Prelude.Results.{Result, ok, err}
use triggerx_backend.Float.{Float64}
use triggerx_backend.Condition.Evaluate.{
  CheckError, unsupported_source_type, request_failed, bad_status, read_failed, no_numeric_value,
  invalid_static_value, ConditionWorkerData,
}

module _ (float : Float64) where
  open float use {F, eq, of_int}

  -- What `json.Unmarshal` makes of a value of unknown type.
  mutual
    pub data Json : Type 0 where
      null : Json
      bool : Bool → Json
      number : F → Json
      string : String → Json
      array : Items → Json
      object : Fields → Json

    pub data Items : Type 0 where
      nil : Items
      cons : Json → Items → Items

    pub data Fields : Type 0 where
      end : Fields
      field : String → Json → Fields → Fields

  -- `v[k]` of an object, and `v[i]` of an array where the index is in range.
  unfoldable pub lookup_field : String → Fields → Option Json
  lookup_field k end = none
  lookup_field k (field j v fs) =
      let rest = lookup_field k fs in if str_eq j k then some v else rest

  unfoldable pub lookup_item : ℕ → Items → Option Json
  lookup_item i nil = none
  lookup_item zero (cons v vs) = some v
  lookup_item (suc i) (cons v vs) = lookup_item i vs

  pub record ValueResponse : Type 0 where
    pub value : F
    pub price : F
    pub usd : F
    pub rate : F
    pub result : F
    pub data_field : F
    pub route : String

  -- What an HTTP request comes to: no response, or a status and perhaps a body.
  pub data Reply (Body : Type 0) : Type 0 where
    no_reply : Reply Body
    reply : ℕ → Option Body → Reply Body

  pub record Decoder : Type 1 where
    pub Body : Type 0
    pub json : Body → Option Json
    pub value_response : Body → Option ValueResponse
    pub float_of_body : Body → Option F
    pub string_of_body : Body → Option String
    pub split_dots : String → List String
    pub atoi : String → Option ℤ
    pub parse_float : String → Option F

  module _ (decoder : Decoder) where
    open decoder use {
      Body, json, value_response, float_of_body, string_of_body, split_dots, atoi, parse_float,
    }

    unfoldable pub convert_to_float64 : Json → Option F
    convert_to_float64 (number f) = some f
    convert_to_float64 (string s) = parse_float s
    convert_to_float64 null = none
    convert_to_float64 (bool b) = none
    convert_to_float64 (array xs) = none
    convert_to_float64 (object fs) = none

    abbrev pub item_at : Option ℤ → Items → Option Json
    item_at (some (pos i)) xs = lookup_item i xs
    item_at (some (negsuc i)) xs = none
    item_at none xs = none

    -- One key of the path.
    unfoldable pub navigate : Json → String → Option Json
    navigate (object fs) k = lookup_field k fs
    navigate (array xs) k = item_at (atoi k) xs
    navigate (number f) k = none
    navigate (string s) k = none
    navigate null k = none
    navigate (bool b) k = none

    unfoldable pub navigate_all : Json → List String → Option Json
    navigate_all v [] = some v
    navigate_all v (k ∷ ks) = elim (navigate v k) [ none ↦ none | some u ↦ navigate_all u ks ]

    unfoldable pub extract_value_by_key_path : Body → String → Option F
    unfolding navigate_all
    extract_value_by_key_path body key_path = elim (json body) [
      | none ↦ none
      | some v ↦ elim (navigate_all v (split_dots key_path)) [
        | none ↦ none
        | some u ↦ convert_to_float64 u
      ]
    ]

    unfoldable pub parse_direct_value : Body → Option F
    parse_direct_value body = elim (float_of_body body) [
      | some f ↦ some f
      | none ↦ elim (string_of_body body) [ none ↦ none | some s ↦ parse_float s ]
    ]

    abbrev pub is_zero : F → Bool
    is_zero f = eq f (of_int (pos 0))

    -- The first field of the response that is not zero.
    unfoldable pub first_non_zero : ValueResponse → Option F
    first_non_zero r =
        if not (is_zero r.value)
        then some r.value
        else if not (is_zero r.price)
        then some r.price
        else if not (is_zero r.usd)
        then some r.usd
        else if not (is_zero r.rate)
        then some r.rate
        else if not (is_zero r.result)
        then some r.result
        else if not (is_zero r.data_field)
        then some r.data_field
        else none

    -- The parse of the response as a `ValueResponse`, and then as a bare value. The key path that is
    -- followed where the response carries one is the job's own, as in the source.
    unfoldable pub extract_fallback : ConditionWorkerData float → Body → Option F
    extract_fallback d body = elim (value_response body) [
      | none ↦ parse_direct_value body
      | some r ↦
          if not (str_eq r.route "")
          then extract_value_by_key_path body d.selected_key_route
          else (elim (first_non_zero r) [ some f ↦ some f | none ↦ parse_direct_value body ])
    ]

    unfoldable pub extract_value_from_response : ConditionWorkerData float → Body → Option F
    unfolding extract_fallback
    extract_value_from_response d body =
        if str_eq d.selected_key_route ""
        then extract_fallback d body
        else (elim (extract_value_by_key_path body d.selected_key_route) [
          | some f ↦ some f
          | none ↦ extract_fallback d body
        ])

    -- `fetchFromAPI`, given what the request came to.
    unfoldable pub fetch_from_api : ConditionWorkerData float → Reply Body → Result CheckError F
    fetch_from_api d no_reply = err request_failed
    fetch_from_api d (reply status none) = if status == 200 then err read_failed else err bad_status
    fetch_from_api d (reply status (some body)) =
        if status == 200
        then (elim (extract_value_from_response d body) [
          | some f ↦ ok f
          | none ↦ err no_numeric_value
        ])
        else err bad_status

    unfoldable pub fetch_static_value : ConditionWorkerData float → Result CheckError F
    fetch_static_value d = elim (parse_float d.value_source_url) [
      | some f ↦ ok f
      | none ↦ err invalid_static_value
    ]

    -- `fetchValueWithCache` is `fetchValue`; an oracle is read as an API.
    unfoldable pub fetch_value : ConditionWorkerData float → Reply Body → Result CheckError F
    fetch_value d r =
        if str_eq d.value_source_type "api"
        then fetch_from_api d r
        else if str_eq d.value_source_type "oracle"
        then fetch_from_api d r
        else if str_eq d.value_source_type "static"
        then fetch_static_value d
        else err unsupported_source_type
