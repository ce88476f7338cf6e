-- ===== src/Condition/Tests.antt =====
-- A condition job over integers, its worker at work, and the reading of a response.
use triggerx_backend.Prelude.{ℕ, ◌+◌, ◌≡◌, refl, true, Option, none, some, List, [], ◌∷◌, length}
use triggerx_backend.Prelude.Int.{ℤ, pos}
use triggerx_backend.Float.{exact}
use triggerx_backend.Condition.Evaluate.{ConditionWorkerData, evaluate_condition}
use triggerx_backend.Condition.Extract.{
  Json, number, string, object, end, field, ValueResponse, reply, Decoder, lookup_field,
  lookup_item, navigate, navigate_all, convert_to_float64, extract_value_by_key_path,
  extract_value_from_response, extract_fallback, fetch_from_api, fetch_value, parse_direct_value,
  first_non_zero,
}
use triggerx_backend.Condition.Worker.{
  Clock, Event, ticks, stops, sees_done, start, run, step, tick, stop, see_done, check_condition,
}

-- A body is the list of the results of the decoders.
pub record Body : Type 0 where
  pub tree : Option (Json exact)
  pub response : Option (ValueResponse exact)
  pub bare : Option ℤ

abbrev pub decoder : Decoder exact
decoder = record {
  Body = Body;
  json = λ b. b.tree;
  value_response = λ b. b.response;
  float_of_body = λ b. b.bare;
  string_of_body = λ b. none;
  split_dots = λ s. s ∷ [];
  atoi = λ s. none;
  parse_float = λ s. none;
}

abbrev pub bare_number : ℕ → Body
bare_number n = record { tree = none; response = none; bare = some (pos n) }

abbrev pub job_data : ConditionWorkerData exact
job_data = record {
  expiration_time = 100;
  recurring = true;
  condition_type = "less_than";
  selected_key_route = "";
  upper_limit = pos 10;
  lower_limit = pos 0;
  value_source_type = "api";
  value_source_url = "http://localhost";
}

-- A turn whose notification is made two later.
abbrev pub at : ℕ → Clock exact decoder
at now = record { ticked_at = now; fetched_at = now + 1; triggered_at = now + 2 }

abbrev pub events : List (Event exact decoder)
events =
    ticks (at 1) (reply 200 (some (bare_number 5)))
    ∷ ticks (at 2) (reply 200 (some (bare_number 50)))
    ∷ ticks (at 3) (reply 500 none)
    ∷ ticks (at 4) (reply 200 (some (bare_number 9)))
    ∷ ticks (at 101) (reply 200 (some (bare_number 9)))
    ∷ stops
    ∷ sees_done
    ∷ []

program : Unit {0}
unfolding start run step tick stop see_done check_condition evaluate_condition fetch_value
    fetch_from_api extract_value_from_response extract_fallback parse_direct_value first_non_zero
    extract_value_by_key_path navigate_all navigate lookup_field lookup_item convert_to_float64
program = tt

two_notifications :
    length (run exact decoder (start exact decoder job_data true true) events).notifications ≡ 2
unfolding program
two_notifications = refl

abbrev routed : ValueResponse exact
routed = record {
  value = pos 7;
  price = pos 0;
  usd = pos 0;
  rate = pos 0;
  result = pos 0;
  data_field = pos 0;
  route = "price";
}

-- A response that names the path `price`.
abbrev routed_body : Body
routed_body = record {
  tree = some (object (field "price" (number (pos 7)) (field "route" (string "price") end)));
  response = some routed;
  bare = none;
}

-- The path that the response names is not followed.
not_followed : extract_value_from_response exact decoder job_data routed_body ≡ none
unfolding program
not_followed = refl
