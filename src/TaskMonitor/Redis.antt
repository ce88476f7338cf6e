-- ===== src/TaskMonitor/Redis.antt =====
-- What the task monitor uses of Redis (the client is a package of its own): its operations over a
-- state that is left open, and as laws what the Redis documentation says of them. A key holds a
-- sorted set, a hash or a stream; a cell is a key with a member, a field or the id of a message.
use triggerx_backend.Prelude.{
  ℕ, ◌≡◌, ◌≢◌, Bool, true, false, Option, none, some, List, [], ◌∷◌, ite, ◌⊎◌, leb,
}
use triggerx_backend.Prelude.Maps.{contains}
use triggerx_backend.Prelude.Texts.{Text, Text-discrete}

abbrev pub Cell : Type 0
Cell = Text × Text

unfoldable pub Cell-discrete : Discrete Cell
Cell-discrete = hlevel Text-discrete

-- A score, the value of a field, or the `task` of a message, where it has one.
pub data Value : Type 0 where
  score : ℕ → Value
  value : Text → Value
  message : Option Text → Value

pub data Command : Type 0 where
  zadd : Text → ℕ → Text → Command
  zrem hdel xdel : Text → Text → Command
  hset xack : Text → Text → Text → Command
  set_ttl : Text → ℕ → Command

-- The cell that a command writes, with its new value.
abbrev pub effect : Command → Option (Cell × Option Value)
effect (zadd key s member) = some ((key, member), some (score s))
effect (zrem key member) = some ((key, member), none)
effect (hset key field v) = some ((key, field), some (value v))
effect (hdel key field) = some ((key, field), none)
effect (xdel stream id) = some ((stream, id), none)
effect (xack stream group id) = none
effect (set_ttl key seconds) = none

abbrev pub written : Option (Cell × Option Value) → Cell → Option Value → Option Value
written none x old = old
written (some (c, new)) x old = ite (Cell-discrete c x) new old

-- The commands of a pipeline, one after the other.
abbrev pub all_written : List Command → Cell → Option Value → Option Value
all_written [] x old = old
all_written (m ∷ ms) x old = all_written ms x (written (effect m) x old)

pub record Redis (R : Type 0) : Type 0 where
  pub send : R → Command → R × Bool
  pub pipeline : R → List Command → R × Bool
  pub xadd : R → Text → Text → R × Option Text
  pub zrange : R → Text → ℕ → Option (List Text)
  pub hget : R → Text → Text → Option (Option Text)
  pub xrange : R → Text → Text → Option (List (Option Text))
  pub xrange_all : R → Text → Option (List (Option Text))

-- Due at a time: a score that is no later.
abbrev pub is_due : ℕ → Option Value → Bool
is_due now (some (score s)) = leb s now
is_due now (some (value v)) = false
is_due now (some (message m)) = false
is_due now none = false

abbrev pub messages : Option Value → List (Option Text)
messages (some (message m)) = m ∷ []
messages (some (score s)) = []
messages (some (value v)) = []
messages none = []

abbrev pub field : Option Value → Option Text
field (some (value v)) = some v
field (some (score s)) = none
field (some (message m)) = none
field none = none

pub record RedisLaws {R : Type 0} (api : Redis R) : Type 0 where
  -- What a cell holds.
  pub look : R → Cell → Option Value
  -- A command that is confirmed has its effect; one that is not may have had it.
  pub sent :
      (r : R) (m : Command) (x : Cell)
      → (api.send r m).1 ≡ true
      → look (api.send r m).0 x ≡ written (effect m) x (look r x)
  pub not_sent :
      (r : R) (m : Command) (x : Cell)
      → (api.send r m).1 ≡ false
      → (look (api.send r m).0 x ≡ look r x)
        ⊎ (look (api.send r m).0 x ≡ written (effect m) x (look r x))
  pub piped :
      (r : R) (ms : List Command) (x : Cell)
      → (api.pipeline r ms).1 ≡ true
      → look (api.pipeline r ms).0 x ≡ all_written ms x (look r x)
  -- A message is added under the id that comes back; the stream may lose old messages, other keys do not change.
  pub added :
      (r : R) (stream json : Text) (id : Text)
      → (api.xadd r stream json).1 ≡ some id
      → look (api.xadd r stream json).0 (stream, id) ≡ some (message (some json))
  pub added_elsewhere :
      (r : R) (stream json key m : Text)
      → stream ≢ key
      → look (api.xadd r stream json).0 (key, m) ≡ look r (key, m)
  -- A range of a sorted set holds exactly the members whose score is no later.
  pub zrange_read :
      (r : R) (key : Text) (now : ℕ) (ms : List Text) (m : Text)
      → api.zrange r key now ≡ some ms
      → contains Text-discrete m ms ≡ is_due now (look r (key, m))
  pub field_read :
      (r : R) (key f : Text) (o : Option Text)
      → api.hget r key f ≡ some o
      → field (look r (key, f)) ≡ o
  pub message_read :
      (r : R) (stream id : Text) (ms : List (Option Text))
      → api.xrange r stream id ≡ some ms
      → messages (look r (stream, id)) ≡ ms
