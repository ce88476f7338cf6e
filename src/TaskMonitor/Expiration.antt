-- ===== src/TaskMonitor/Expiration.antt =====
-- internal/taskmonitor/tasks/expiration_manager.go: the sorted sets of timeouts and of the
-- expirations of messages.
use triggerx_backend.Prelude.{
  ℕ, ◌+◌, Bool, true, false, Option, none, some, List, [], ◌∷◌, ◌++◌, map, if◌then◌else◌, ◌==◌,
}
use triggerx_backend.Prelude.Results.{Result, ok, err, panic}
use triggerx_backend.Prelude.Texts.{Text, text}
use triggerx_backend.Prelude.Decimal.{format_int, parse_int}
use triggerx_backend.TaskMonitor.Redis.{Redis, Command, zadd, zrem, set_ttl}
use triggerx_backend.TaskMonitor.Data.{
  TaskError, redis_failed, timeouts_key, expiration_key, hour, dispatched, completed, failed,
  task_retry,
}

abbrev pub confirmed : Bool → Result TaskError (Unit {0})
confirmed true = ok tt
confirmed false = err redis_failed

-- `stream + ":" + messageID`
abbrev pub member_of : Text → Text → Text
member_of stream id = stream ++ (text ":" ++ id)

-- `member[len(prefix):]` of a longer member that starts with the prefix.
unfoldable pub after_prefix : Text → Text → Option Text
after_prefix [] [] = none
after_prefix [] (y ∷ m) = some (y ∷ m)
after_prefix (x ∷ p) [] = none
after_prefix (x ∷ p) (y ∷ m) = let rest = after_prefix p m in if x == y then rest else none

-- The loops that skip what cannot be read.
abbrev pub keep_read : {A B : Type 0} → (A → Option B) → List A → List B
keep_read f [] = []
keep_read f (x ∷ xs) = elim (f x) [ none ↦ keep_read f xs | some y ↦ y ∷ keep_read f xs ]

abbrev pub read_all : {A B : Type 0} → (A → Option B) → Option (List A) → Result TaskError (List B)
read_all f none = err redis_failed
read_all f (some xs) = ok (keep_read f xs)

module _ {R : Type 0} (api : Redis R) where
  -- The addition to a sorted set, whose life is then renewed; an error of that is only logged.
  abbrev pub add_score : R × Bool → Text → R × Result TaskError (Unit {0})
  add_score (r, true) key = ((api.send r (set_ttl key hour)).0, ok tt)
  add_score (r, false) key = (r, err redis_failed)

  unfoldable pub add_task_timeout : R → ℕ → ℕ → ℕ → R × Result TaskError (Unit {0})
  unfolding format_int
  add_task_timeout r now id duration =
      add_score (api.send r (zadd timeouts_key (now + duration) (format_int id))) timeouts_key

  unfoldable pub get_expired_tasks : R → ℕ → Result TaskError (List ℕ)
  unfolding parse_int
  get_expired_tasks r now = read_all parse_int (api.zrange r timeouts_key now)

  unfoldable pub remove_task_timeout : R → ℕ → R × Result TaskError (Unit {0})
  unfolding format_int
  remove_task_timeout r id =
      let s = api.send r (zrem timeouts_key (format_int id)) in (s.0, confirmed s.1)

  abbrev pub timeout_removals : List ℕ → List Command
  timeout_removals = map (λ id. zrem timeouts_key (format_int id))

  unfoldable pub remove_multiple_task_timeouts : R → List ℕ → R × Result TaskError (Unit {0})
  unfolding format_int
  remove_multiple_task_timeouts r [] = (r, ok tt)
  remove_multiple_task_timeouts r (id ∷ ids) =
      let s = api.pipeline r (timeout_removals (id ∷ ids)) in (s.0, confirmed s.1)

  unfoldable pub add_message_expiration : R → ℕ → Text → Text → ℕ → R × Result TaskError (Unit {0})
  add_message_expiration r now stream id ttl =
      add_score (api.send r (zadd (expiration_key stream) (now + ttl) (member_of stream id)))
        (expiration_key stream)

  unfoldable pub remove_message_expiration : R → Text → Text → R × Result TaskError (Unit {0})
  remove_message_expiration r stream id =
      let s = api.send r (zrem (expiration_key stream) (member_of stream id)) in
      (s.0, confirmed s.1)

  unfoldable pub get_expired_messages : R → ℕ → Text → Result TaskError (List Text)
  unfolding after_prefix
  get_expired_messages r now stream =
      read_all (after_prefix (stream ++ text ":")) (api.zrange r (expiration_key stream) now)

  -- The streams that have expired messages; one that cannot be read is skipped.
  abbrev pub with_messages :
      Text → Result TaskError (List Text) → List (Text × List Text) → List (Text × List Text)
  with_messages stream (ok []) rest = rest
  with_messages stream (ok (id ∷ ids)) rest = (stream, id ∷ ids) ∷ rest
  with_messages stream (err e) rest = rest
  with_messages stream panic rest = rest

  abbrev pub expired_of : R → ℕ → List Text → List (Text × List Text)
  expired_of r now [] = []
  expired_of r now (s ∷ ss) = with_messages s (get_expired_messages r now s) (expired_of r now ss)

  unfoldable pub get_expired_messages_for_all_streams : R → ℕ → List (Text × List Text)
  unfolding get_expired_messages
  get_expired_messages_for_all_streams r now =
      expired_of r now (dispatched ∷ completed ∷ failed ∷ task_retry ∷ [])

  abbrev pub expiration_removals : Text → List Text → List Command
  expiration_removals stream = map (λ id. zrem (expiration_key stream) (member_of stream id))

  unfoldable pub remove_multiple_message_expirations :
      R → Text → List Text → R × Result TaskError (Unit {0})
  remove_multiple_message_expirations r stream [] = (r, ok tt)
  remove_multiple_message_expirations r stream (id ∷ ids) =
      let s = api.pipeline r (expiration_removals stream (id ∷ ids)) in (s.0, confirmed s.1)
