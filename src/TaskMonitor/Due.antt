-- ===== src/TaskMonitor/Due.antt =====
-- When the worker finds the timeouts of tasks and the expirations of messages that were added.
use triggerx_backend.Prelude.{
  ℕ, ◌+◌, ◌≡◌, ◌≢◌, refl, sym, ap, ◌∙◌, Bool, true, false, some, List, [], ◌∷◌, ◌++◌, map, All, leb,
  if_pos, if_neg, ℕ_discrete, some-eq,
}
use triggerx_backend.Prelude.Maps.{contains}
use triggerx_backend.Prelude.Results.{ok}
use triggerx_backend.Prelude.Texts.{Text, text, Text-discrete}
use triggerx_backend.Prelude.Decimal.{
  format_int, parse_int, format_int-injective, parse_int-format_int,
}
use triggerx_backend.TaskMonitor.Redis.{Redis, RedisLaws, score, is_due, zadd}
use triggerx_backend.TaskMonitor.Data.{timeouts_key, expiration_key}
use triggerx_backend.TaskMonitor.Expiration.{
  add_score, member_of, after_prefix, read_all, add_task_timeout, get_expired_tasks,
  add_message_expiration, get_expired_messages,
}
use triggerx_backend.TaskMonitor.Expired.{keep_read-map, after_prefix-member_of, All-Unit}
use triggerx_backend.TaskMonitor.Leaves.{written-here, quiet-Leaves}

-- A value is in a list exactly if its name is among the names.
contains-map :
    {B : Type 0}
    → (dec : Discrete B) (f : B → Text) (P : B → Type 0)
    → ((a b : B) → P a → P b → f a ≡ f b → a ≡ b)
    → (b : B) (bs : List B) → P b
    → All P bs
    → contains Text-discrete (f b) (map f bs) ≡ contains dec b bs
unfolding contains
contains-map dec f P inj b [] p ps = refl
contains-map dec f P inj b (x ∷ bs) p ps = elim (dec x b) [
  | yes e ↦ if_pos (Text-discrete (f x) (f b)) (ap f e) true _ ∙ sym (if_pos (dec x b) e true _)
  | no n ↦
      if_neg (Text-discrete (f x) (f b)) (λ q. n (inj x b ps.0 p q)) true _
      ∙ contains-map dec f P inj b bs p ps.1
      ∙ sym (if_neg (dec x b) n true _)
]

module _ {R : Type 0} (api : Redis R) (laws : RedisLaws api) where
  -- What is added to a sorted set is there, however the renewal of its life ends.
  add_score-look :
      (r : R) (key member : Text) (s : ℕ)
      → (add_score api (api.send r (zadd key s member)) key).1 ≡ ok tt
      → laws.look (add_score api (api.send r (zadd key s member)) key).0 (key, member)
        ≡ some (score s)
  add_score-look r key member s h = go (api.send r (zadd key s member)) h (λ e.
      laws.sent r (zadd key s member) (key, member) e
      ∙ written-here (key, member) (some (score s)) (laws.look r (key, member)))
    where
      go :
          (x : R × Bool)
          → (add_score api x key).1 ≡ ok tt
          → (x.1 ≡ true → laws.look x.0 (key, member) ≡ some (score s))
          → laws.look (add_score api x key).0 (key, member) ≡ some (score s)
      go (r', true) h added = quiet-Leaves api laws key r' _ refl member ∙ added refl
      go (r', false) h added = cc

  -- Where `AddTaskTimeout` and `AddMessageExpiration` succeed, nothing else changes the sorted sets
  -- and they have not expired, and their members are those of some tasks, or those of some messages
  -- of the stream with ids: `GetExpiredTasks` then returns these tasks, and `GetExpiredMessages`
  -- these messages; the added task, or message, is among them exactly if the time of the call is not
  -- before that of the addition and the duration together.
  pub add_task_timeout-get_expired_tasks :
      (r : R) (now duration later : ℕ) (id : ℕ) (ids : List ℕ) (stream entry : Text)
      (entries : List Text)
      → (add_task_timeout api r now id duration).1 ≡ ok tt
      → api.zrange (add_task_timeout api r now id duration).0 timeouts_key later
        ≡ some (map format_int ids)
      → (add_message_expiration api r now stream entry duration).1 ≡ ok tt
      → api.zrange
          (add_message_expiration api r now stream entry duration).0
          (expiration_key stream)
          later
        ≡ some (map (member_of stream) entries)
      → entry ≢ []
      → All (λ (e : Text). e ≢ []) entries
      → ((get_expired_tasks api (add_task_timeout api r now id duration).0 later ≡ ok ids)
          × (contains ℕ_discrete id ids ≡ leb (now + duration) later))
        × ((get_expired_messages api
                (add_message_expiration api r now stream entry duration).0
                later
                stream
              ≡ ok entries)
            × (contains Text-discrete entry entries ≡ leb (now + duration) later))
  unfolding add_task_timeout add_message_expiration get_expired_tasks get_expired_messages
  add_task_timeout-get_expired_tasks r now duration later id ids stream entry entries timed tasks
        expires members named all_named =
      (
        (
          ap (read_all parse_int) tasks
              ∙ ap (λ (x : List ℕ). ok x)
                  (keep_read-map parse_int format_int (λ (i : ℕ). Unit {0})
                    (λ i done. parse_int-format_int i) ids (All-Unit ids)),
          sym (
                contains-map ℕ_discrete format_int (λ (i : ℕ). Unit {0})
                  (λ a b p q e. format_int-injective a b e) id ids tt (All-Unit ids))
              ∙ laws.zrange_read _ timeouts_key later (map format_int ids) (format_int id) tasks
              ∙ ap (is_due later)
                  (add_score-look r timeouts_key (format_int id) (now + duration) timed),
        ),
        (
          ap (read_all (after_prefix (stream ++ text ":"))) members
              ∙ ap (λ (x : List Text). ok x)
                  (keep_read-map (after_prefix (stream ++ text ":")) (member_of stream)
                    (λ (e : Text). e ≢ []) (after_prefix-member_of stream) entries all_named),
          sym (
                contains-map Text-discrete (member_of stream) (λ (e : Text). e ≢ [])
                  (λ a b p q e. some-eq (
                    sym (after_prefix-member_of stream a p)
                    ∙ ap (after_prefix (stream ++ text ":")) e
                    ∙ after_prefix-member_of stream b q))
                  entry entries named all_named)
              ∙ laws.zrange_read _ (expiration_key stream) later (map (member_of stream) entries)
                  (member_of stream entry) members
              ∙ ap (is_due later) (
                  add_score-look r (expiration_key stream) (member_of stream entry) (now + duration)
                    expires),
        ),
      )
