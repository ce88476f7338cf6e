-- ===== src/EventMonitor/Tests.antt =====
-- Ranges of ten blocks; the first query of a poll fails, the second is answered.
use triggerx_backend.Prelude.{
  ℕ, ◌≡◌, refl, true, false, Option, none, some, List, [], ◌∷◌, ltb, if◌then◌else◌, arith,
}
use triggerx_backend.Prelude.Results.{ok, panic}
use triggerx_backend.Prelude.Texts.{Text, text, text_eq}
use triggerx_backend.Registry.Manager.{Subscriber}
use triggerx_backend.EventMonitor.Filter.{
  Log, matches_filter, topic_index, scan_int, scan_digits, without_prefix, to_lower, hex_to_uint64,
  read_hex,
}
use triggerx_backend.EventMonitor.Worker.{Poll, poll_events}
use triggerx_backend.EventMonitor.Polling.{
  EndsWithin, poll_events-EndsWithin, poll_events-last_block,
}

abbrev log : Log
log = record {
  topics = text "0xAB" ∷ [];
  contents = [];
  block_number = text "0x1f";
  transaction_hash = [];
  log_index = text "0x0";
}

abbrev get_logs : ℕ → ℕ → Option (List Log)
get_logs from to = if ltb to 20 then none else some (log ∷ [])

poll_events-EndsWithin_example :
    (p : Poll) × (poll_events get_logs 10 0 (some 20) ≡ ok p)
    × EndsWithin get_logs 10 (omega arith) 0 20 p
poll_events-EndsWithin_example = poll_events-EndsWithin get_logs 10 (omega arith) 0 20 (omega arith)

poll_events-last_block_example :
    (p : Poll) × (poll_events get_logs 10 0 (some 20) ≡ ok p) × (p.last_block ≡ 20)
poll_events-last_block_example =
    poll_events-last_block get_logs 10 (omega arith) 0 20 (omega arith) (λ b. (log ∷ [], refl))

abbrev with_filter : Text → Text → Subscriber
with_filter param value = record {
  request_id = [];
  webhook_url = [];
  expires_at = 0;
  filter_param = param;
  filter_value = value;
}

tests : Unit {0}
unfolding matches_filter topic_index scan_int scan_digits without_prefix to_lower text_eq
    hex_to_uint64 read_hex
tests = tt
  where
    by_case : matches_filter log (with_filter (text "topic0") (text "aB")) ≡ ok true
    by_case = refl

    too_few : matches_filter log (with_filter (text "topic7") (text "0xab")) ≡ ok false
    too_few = refl

    -- A filter on the topic -1 makes the worker panic.
    below : matches_filter log (with_filter (text "-1") (text "0xab")) ≡ panic
    below = refl

    number : hex_to_uint64 (text "0x1f") ≡ some 31
    number = refl
