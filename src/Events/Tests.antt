-- ===== src/Events/Tests.antt =====
-- A chain whose block n holds the one log n, read from block 3 to block 27.
use triggerx_backend.Prelude.{
  ℕ, ◌+◌, ◌-◌, ◌≤◌, ◌≡◌, refl, true, Option, none, some, List, [], ◌∷◌, length, leb, arith,
  if◌then◌else◌,
}
use triggerx_backend.Prelude.Results.{ok}
use triggerx_backend.Events.Blocks.{EventWorker, check_for_events}
use triggerx_backend.Events.Complete.{logs_from, check_for_events-logs_from}

abbrev one_log : ℕ → List ℕ
one_log n = n ∷ []

-- It refuses a query of more than ten blocks.
abbrev get_logs : ℕ → ℕ → Option (List ℕ)
get_logs from to =
    if leb to (from + 9) then some (logs_from ℕ one_log from (to + 1 - from)) else none

le→leb : (a b : ℕ) → a ≤ b → leb a b ≡ true
le→leb a b h = ground arith

answers :
    (from to : ℕ)
    → from ≤ to
    → to ≤ from + 9
    → get_logs from to ≡ some (logs_from ℕ one_log from (to + 1 - from))
answers from to h k = rw (le→leb to (from + 9) k) refl

abbrev worker : EventWorker ℕ
worker = record { last_block = 3 }

twenty_four : length (logs_from ℕ one_log 4 24) ≡ 24
unfolding logs_from
twenty_four = refl

check_for_events-logs_from_example :
    check_for_events ℕ get_logs worker (some 27)
    ≡ (record { last_block = 27 }, ok (logs_from ℕ one_log 4 24))
check_for_events-logs_from_example =
    check_for_events-logs_from ℕ one_log get_logs answers worker 27 (omega arith)
