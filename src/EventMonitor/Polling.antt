-- ===== src/EventMonitor/Polling.antt =====
-- The last block that a poll leaves, and its end.
use triggerx_backend.Prelude.{
  ℕ, zero, suc, ◌+◌, ◌-◌, ◌≤◌, ◌<◌, ◌≡◌, refl, ap, ◌∙◌, Bool, true, false, Option, none, some, List,
  [], leb, leb→le, if◌then◌else◌, arith, ℕ_discrete,
}
use triggerx_backend.Prelude.Results.{ok}
use triggerx_backend.EventMonitor.Filter.{Log}
use triggerx_backend.EventMonitor.Worker.{Poll, to_block, queried, query_chunks, poll_events}

is_true : (a b : ℕ) → a ≤ b → leb a b ≡ true
is_true a b h = ground arith

module _ (get_logs : ℕ → ℕ → Option (List Log)) (max_block_range : ℕ)
    (positive : 0 < max_block_range) where
  to_block-range :
      (from current : ℕ)
      → from ≤ current
      → (from ≤ to_block get_logs max_block_range from current)
        × (to_block get_logs max_block_range from current ≤ current)
  unfolding to_block
  to_block-range from current h = (ground arith, ground arith)

  last-queried :
      (o : Option (List Log)) (to : ℕ) (p : Poll)
      → p.last_block ≤ to
      → (p.last_block ≤ (queried get_logs max_block_range o to p).last_block)
        × ((queried get_logs max_block_range o to p).last_block ≤ to)
  last-queried none to p h = (omega arith, h)
  last-queried (some logs) to p h = (h, omega arith)

  -- The loop ends within its fuel, and the last block stays within the blocks that it has read.
  abbrev pub EndsWithin : ℕ → ℕ → Poll → Type 0
  EndsWithin last current p = (p.ended ≡ true) × (last ≤ p.last_block) × (p.last_block ≤ current)

  query_chunks-EndsWithin :
      (fuel from current : ℕ) (p : Poll)
      → current < from + fuel
      → p.last_block < from
      → p.last_block ≤ current
      → EndsWithin p.last_block current (query_chunks get_logs max_block_range fuel from current p)
  unfolding query_chunks
  query_chunks-EndsWithin zero from current p f l c =
      (ground (arith, f), ground (arith, f), ground (arith, f, c))
  query_chunks-EndsWithin (suc fuel) from current p f l c = go (leb from current) refl (λ h.
      let (low, high) = to_block-range from current h in
      let to = to_block get_logs max_block_range from current in
      let (up, down) = last-queried (get_logs from to) to p (omega (arith, l, low)) in
      let (e, a, b) =
        query_chunks-EndsWithin fuel (to + 1) current
          (queried get_logs max_block_range (get_logs from to) to p) (omega (arith, f, low))
          (omega (arith, down)) (omega (arith, down, high)) in
      (e, omega (arith, a, up), b))
    where
      go :
          (x : Bool)
          → leb from current ≡ x
          → (from ≤ current
              → EndsWithin p.last_block current (
                  query_chunks get_logs max_block_range fuel
                    (to_block get_logs max_block_range from current + 1)
                    current
                    (queried get_logs max_block_range
                      (get_logs from (to_block get_logs max_block_range from current))
                      (to_block get_logs max_block_range from current)
                      p)))
          → EndsWithin p.last_block current (
              if x
              then query_chunks get_logs max_block_range fuel
                  (to_block get_logs max_block_range from current + 1)
                  current
                  (queried get_logs max_block_range
                    (get_logs from (to_block get_logs max_block_range from current))
                    (to_block get_logs max_block_range from current)
                    p)
              else record p { ended = true })
      go true e rest = rest (leb→le from current e)
      go false e rest = (refl, omega arith, c)

  -- With a positive range and a current block above the last one a poll ends, whatever the queries
  -- answer, and the last block afterwards is neither below the one before nor above the current one.
  pub poll_events-EndsWithin :
      (last current : ℕ)
      → last < current
      → (p : Poll) × (poll_events get_logs max_block_range last (some current) ≡ ok p)
        × EndsWithin last current p
  unfolding poll_events
  poll_events-EndsWithin last current h = (
    query_chunks get_logs max_block_range (current - last) (last + 1) current
        (record { last_block = last; logs = []; ended = false }),
    ground (arith, h),
    query_chunks-EndsWithin (current - last) (last + 1) current
        (record { last_block = last; logs = []; ended = false }) (omega (arith, h)) (omega arith)
        (omega (arith, h)),
  )

  query_chunks-done :
      (fuel from current : ℕ) (p : Poll)
      → current < from
      → (query_chunks get_logs max_block_range fuel from current p).last_block ≡ p.last_block
  unfolding query_chunks
  query_chunks-done zero from current p h = ground arith
  query_chunks-done (suc fuel) from current p h = ground arith

  query_chunks-last_block :
      (fuel from current : ℕ) (p : Poll)
      → ((b : ℕ) → (logs : List Log) × (get_logs b current ≡ some logs))
      → from ≤ current
      → current < from + fuel
      → (query_chunks get_logs max_block_range fuel from current p).last_block ≡ current
  unfolding query_chunks
  query_chunks-last_block zero from current p answers h f = absurd (omega (arith, h, f))
  query_chunks-last_block (suc fuel) from current p answers h f =
      first ∙ elim (ℕ_discrete to current) [
        | yes e ↦ query_chunks-done fuel (to + 1) current after (omega (arith, e)) ∙ answered e
        | no n ↦
            query_chunks-last_block fuel (to + 1) current after answers (omega (arith, n, range.1))
              (omega (arith, range.0, f))
      ]
    where
      range :
          (from ≤ to_block get_logs max_block_range from current)
          × (to_block get_logs max_block_range from current ≤ current)
      range = to_block-range from current h

      to : ℕ
      to = to_block get_logs max_block_range from current

      after : Poll
      after = queried get_logs max_block_range (get_logs from to) to p

      first :
          (if leb from current
            then query_chunks get_logs max_block_range fuel (to + 1) current after
            else record p { ended = true }).last_block
          ≡ (query_chunks get_logs max_block_range fuel (to + 1) current after).last_block
      first =
          ap
            (λ (b : Bool).
              (if b
                then query_chunks get_logs max_block_range fuel (to + 1) current after
                else record p { ended = true }).last_block)
            (is_true from current h)

      answered : to ≡ current → after.last_block ≡ current
      answered e =
          let (logs, q) = answers from in
          ap (λ (o : Option (List Log)). (queried get_logs max_block_range o to p).last_block)
            (ap (get_logs from) e ∙ q)
          ∙ e

  -- With a positive range and a current block above the last one: if the queries that end with the
  -- current block are answered, the last block after a poll is the current one, whatever the queries
  -- before them answer.
  pub poll_events-last_block :
      (last current : ℕ)
      → last < current
      → ((b : ℕ) → (logs : List Log) × (get_logs b current ≡ some logs))
      → (p : Poll) × (poll_events get_logs max_block_range last (some current) ≡ ok p)
        × (p.last_block ≡ current)
  unfolding poll_events
  poll_events-last_block last current h answers = (
    query_chunks get_logs max_block_range (current - last) (last + 1) current
        (record { last_block = last; logs = []; ended = false }),
    ground (arith, h),
    query_chunks-last_block (current - last) (last + 1) current
        (record { last_block = last; logs = []; ended = false }) answers (omega (arith, h))
        (omega (arith, h)),
  )
