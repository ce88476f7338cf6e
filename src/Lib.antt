-- ===== src/Lib.antt =====
-- The backend of TriggerX: schedulers watch conditions and events, a dispatcher sends their triggers
-- to keepers, a keeper performs a task and others validate what it did, and a database server
-- tells clients over websockets.
--
-- A time is a natural number: a second of the Unix clock or, for the data of tasks, a nanosecond
-- since Go's zero time, as the file says. A Go function that may fail or panic is a `Result`.
-- Concurrency is an explicit list of steps. Go's maps are association lists without double keys.
--
-- - Prelude: shared names; signed integers, maps, results, texts, decimal numerals. Float: Go's
--   float64 as an interface, which the integers implement, with the conversion to `int` of amd64.
-- - Types (pkg/types/schedulers.go): the data of a task as it goes from schedulers to keepers.
-- - Retry (pkg/retry/retry.go): `Retry`, over streams of the operation's results, the context's
--   states and random numbers. The loop is structural in the attempts left.
-- - Websocket (internal/dbserver/websocket: hub.go, client.go): the hub, whose loop is the step
--   function; a client is a number, its send channel a buffer of 256 with a closed flag.
-- - Registry (internal/eventmonitor/registry/registry.go): the requests for events and their
--   subscribers, by a run of calls, with the keys of the workers that were cancelled.
-- - Condition (internal/schedulers/condition/scheduler and its worker folder): the worker of a
--   condition job with its loop, its reading of values and its callbacks, by a list of events with
--   the readings of the clock, and the trigger data that the scheduler makes of a notification.
-- - Keeper (internal/keeper/core/validation, and core/execution/executor.go, pkg/proof and
--   pkg/cryptography/ecdsa.go for the performer): the checks of a trigger, of a transaction, of a
--   proof and of signatures, the data that a performer uploads, and how the parts fit: Agreement
--   and Triggered relate scheduler and keeper, RoundTrip performer and validators, by what IPFS
--   gives back.
-- - Nonce (internal/keeper/core/execution/nonce_manager.go): the nonces of a keeper, and the
--   submission of a transaction with its replacements, over the answers of the chain, and which
--   errors are retried (also those of action.go).
-- - Events (internal/schedulers/condition/scheduler/worker/monitor_event.go): the reading of blocks by
--   an event worker. Its loop has as fuel the number of blocks to read, which is enough, since each
--   round reads one at least.
-- - FileCache (pkg/dockerexecutor/file/cache.go): the cache of downloaded scripts with its counters,
--   its eviction and its load at the start. The exchange sort has as fuel the number of files, one
--   round for each.
-- - ContainerPool (pkg/dockerexecutor/container/pool.go): the containers of one language with the
--   ready queue and the semaphore, by runs of calls; Docker answers by arguments. A second `close`
--   panics and leaves the pool as it is.
-- - TimeScheduler (internal/schedulers/time/scheduler/schedule.go): the tasks of a poll, their batches
--   and requests. The loop over batches has as fuel the number of tasks, which is enough for a
--   positive batch size.
-- - TaskDispatcher (internal/taskdispatcher: taskdispatcher.go, health_client.go): a request of a
--   scheduler gets a performer and a signature and is split into tasks, which the keepers of Keeper
--   check. The signature and the JSON are arguments, and so is whether the stream takes a task.
-- - EventMonitor (internal/eventmonitor/worker/worker.go): the worker of a registry entry, over the
--   answers of the node. Its loop has as fuel the number of new blocks.
-- - TaskMonitor (internal/taskmonitor/tasks: expiration_manager.go, task_index.go, task_add.go,
--   workers.go, manager.go): the streams of tasks, their index and their timeouts, over the
--   operations of Redis; Redis is an interface with laws, which Memory implements by a list of
--   cells. That a key expires is left out.
-- - Health (internal/health/keeper): the keepers that the health service knows, their check-ins and
--   the check for inactive ones, over the results of the database.
--
-- Parameters: the chain and its JSON-RPC node, TLS, hashes, signatures, JSON, IPFS, the file system and
-- Redis; float64; random numbers; parsing of addresses. Not modelled: databases, HTTP and RPC
-- handlers, logging, metrics and configuration, which are I/O.
-- Other loops are structural in lists or in the attempts left, and a submission that outlasts its
-- list of answers is returned as unfinished.
pub mod Prelude
pub mod Float
pub mod Types
pub mod Retry
pub mod Websocket
pub mod Registry
pub mod Condition
pub mod Keeper
pub mod ContainerPool
pub mod EventMonitor
pub mod Events
pub mod FileCache
pub mod Health
pub mod Nonce
pub mod TaskDispatcher
pub mod TaskMonitor
pub mod TimeScheduler
