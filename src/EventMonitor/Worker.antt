-- ===== src/EventMonitor/Worker.antt =====
-- internal/eventmonitor/worker/worker.go: the start, a poll, and the notifications of a log. The
-- node's `EthGetLogs` and the number of its latest block are parameters, and so are the range of a
-- query and the look-back of the configuration. A block number is far below 2^64.
use triggerx_backend.Prelude.{
  ℕ, zero, suc, ◌+◌, ◌-◌, Bool, true, false, Option, none, some, List, [], ◌∷◌, ◌++◌, ltb, leb,
  ◌==◌, if◌then◌else◌,
}
use triggerx_backend.Prelude.Results.{Result, ok, err, panic}
use triggerx_backend.Prelude.Texts.{Text}
use triggerx_backend.Registry.Manager.{Subscriber, Subscribers, RegistryEntry}
use triggerx_backend.EventMonitor.Filter.{
  Log, WorkerError, bad_block_number, bad_log_index, no_block_number, matches_filter, hex_to_uint64,
}

-- What a subscriber's webhook is sent; the time is left out.
pub record EventNotification : Type 0 where
  pub webhook_url : Text
  pub request_id : Text
  pub chain_id : Text
  pub contract_addr : ℕ
  pub event_sig : ℕ
  pub block_number : ℕ
  pub tx_hash : Text
  pub log_index : ℕ
  pub topics : List Text
  pub contents : Text

abbrev pub notification : RegistryEntry → Log → ℕ → ℕ → Subscriber → EventNotification
notification e log block index s = record {
  webhook_url = s.webhook_url;
  request_id = s.request_id;
  chain_id = e.chain_id;
  contract_addr = e.contract_addr;
  event_sig = e.event_sig;
  block_number = block;
  tx_hash = log.transaction_hash;
  log_index = index;
  topics = log.topics;
  contents = log.contents;
}

abbrev pub also :
    Result WorkerError Bool
    → EventNotification
    → Result WorkerError (List EventNotification)
    → Result WorkerError (List EventNotification)
also (ok true) n (ok ns) = ok (n ∷ ns)
also (ok false) n rest = rest
also (ok true) n (err e) = err e
also (ok true) n panic = panic
also (err e) n rest = err e
also panic n rest = panic

abbrev pub notify_all :
    RegistryEntry → Log → ℕ → ℕ → Subscribers → Result WorkerError (List EventNotification)
notify_all e log block index [] = ok []
notify_all e log block index ((id, s) ∷ rest) =
    also (matches_filter log s) (notification e log block index s)
      (notify_all e log block index rest)

abbrev pub with_numbers :
    RegistryEntry → Log → Option ℕ → Option ℕ → Result WorkerError (List EventNotification)
with_numbers e log none index = err bad_block_number
with_numbers e log (some block) none = err bad_log_index
with_numbers e log (some block) (some index) = notify_all e log block index e.subscribers

unfoldable pub process_log : RegistryEntry → Log → Result WorkerError (List EventNotification)
unfolding matches_filter hex_to_uint64
process_log e log =
    with_numbers e log (hex_to_uint64 log.block_number) (hex_to_uint64 log.log_index)

-- The block that a new worker starts from.
unfoldable pub start_block : ℕ → ℕ → Option ℕ → ℕ
start_block lookback last none = last
start_block lookback last (some current) =
    if last == 0 then (if ltb lookback current then current - lookback else 0) else last

-- The last block and the logs that were processed, of one poll; `ended` says whether the loop did.
pub record Poll : Type 0 where
  pub last_block : ℕ
  pub logs : List Log
  pub ended : Bool

module _ (get_logs : ℕ → ℕ → Option (List Log)) (max_block_range : ℕ) where
  unfoldable pub to_block : ℕ → ℕ → ℕ
  to_block from current =
      if ltb current (from + max_block_range - 1) then current else from + max_block_range - 1

  -- A query that fails leaves the last block and is not repeated.
  abbrev pub queried : Option (List Log) → ℕ → Poll → Poll
  queried none to p = p
  queried (some logs) to p = record p { last_block = to; logs = p.logs ++ logs }

  -- The loop from a block on; the first argument is its fuel.
  unfoldable pub query_chunks : ℕ → ℕ → ℕ → Poll → Poll
  unfolding to_block
  query_chunks zero from current p = if leb from current then p else record p { ended = true }
  query_chunks (suc fuel) from current p =
      let to = to_block from current in
      let rest = query_chunks fuel (to + 1) current (queried (get_logs from to) to p) in
      if leb from current then rest else record p { ended = true }

  unfoldable pub poll_events : ℕ → Option ℕ → Result WorkerError Poll
  unfolding query_chunks
  poll_events last none = err no_block_number
  poll_events last (some current) =
      if leb current last
      then ok (record { last_block = last; logs = []; ended = true })
      else ok (
          query_chunks (current - last) (last + 1) current
            (record { last_block = last; logs = []; ended = false }))
