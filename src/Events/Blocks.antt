-- ===== src/Events/Blocks.antt =====
-- internal/schedulers/condition/scheduler/worker/monitor_event.go: the queries of `checkForEvents`
-- and the block it remembers. The client's `EthGetLogs` is a parameter, as are the current block's
-- number and what the logs of a reply convert to; the filter and the callback that each log then goes
-- to are left out. A block number is far below 2^64.
use triggerx_backend.Prelude.{
  ℕ, zero, suc, ◌+◌, ◌-◌, Option, none, some, List, [], ◌++◌, ltb, leb, if◌then◌else◌,
}
use triggerx_backend.Prelude.Results.{Result, ok, err, panic}

-- `unfinished` is the loop's fuel at its end.
pub data EventError : Type 0 where
  no_block_number filter_failed unfinished : EventError

abbrev pub max_block_range : ℕ
max_block_range = 10

unfoldable pub to_block : ℕ → ℕ → ℕ
to_block from current =
    if ltb current (from + max_block_range - 1) then current else from + max_block_range - 1

module _ (Log : Type 0) where
  pub record EventWorker : Type 0 where
    pub last_block : ℕ

  abbrev pub appended : List Log → Result EventError (List Log) → Result EventError (List Log)
  appended logs (ok more) = ok (logs ++ more)
  appended logs (err e) = err e
  appended logs panic = panic

  -- One round of the loop: the reply to its query, and the rounds to come.
  abbrev pub queried :
      Option (List Log) → Result EventError (List Log) → Result EventError (List Log)
  queried none rest = err filter_failed
  queried (some logs) rest = appended logs rest

  module _ (get_logs : ℕ → ℕ → Option (List Log)) where
    -- The loop from a block on; the first argument is its fuel.
    unfoldable pub collect : ℕ → ℕ → ℕ → Result EventError (List Log)
    unfolding to_block
    collect zero from current = if leb from current then err unfinished else ok []
    collect (suc fuel) from current =
        let rest = collect fuel (to_block from current + 1) current in
        if leb from current then queried (get_logs from (to_block from current)) rest else ok []

    abbrev pub finished :
        EventWorker → ℕ → Result EventError (List Log) → EventWorker × Result EventError (List Log)
    finished w current (ok logs) = (record w { last_block = current }, ok logs)
    finished w current (err e) = (w, err e)
    finished w current panic = (w, panic)

    -- The worker afterwards, and the logs to process.
    unfoldable pub check_for_events :
        EventWorker → Option ℕ → EventWorker × Result EventError (List Log)
    unfolding collect
    check_for_events w none = (w, err no_block_number)
    check_for_events w (some current) =
        if leb current w.last_block
        then (w, ok [])
        else finished w current (collect (current - w.last_block) (w.last_block + 1) current)
