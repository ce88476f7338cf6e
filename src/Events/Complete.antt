-- ===== src/Events/Complete.antt =====
-- internal/schedulers/condition/scheduler/worker/monitor_event.go: no block is missed or read twice.
use triggerx_backend.Prelude.{
  ℕ, zero, suc, ◌+◌, ◌-◌, ◌≤◌, ◌<◌, ◌≡◌, refl, sym, ap, ◌∙◌, false, Option, some, List, [], ◌++◌,
  leb, leb→le, arith, Bool-cases, inl, inr,
}
use mathlib.Core.List.{append_assoc}
use triggerx_backend.Prelude.Results.{ok}
use triggerx_backend.Events.Blocks.{EventWorker, to_block, collect, check_for_events}

past : (from current : ℕ) → current + 1 - from ≤ 0 → leb from current ≡ false
past from current h = ground arith

none_left : (from current : ℕ) → leb from current ≡ false → 0 ≡ current + 1 - from
none_left from current h = ground arith

not_seen : (current last : ℕ) → last < current → leb current last ≡ false
not_seen current last h = ground arith

-- A query stays within ten blocks and the current one.
to_block-within :
    (from current : ℕ)
    → from ≤ current
    → (from ≤ to_block from current)
      × (to_block from current ≤ from + 9)
      × (to_block from current ≤ current)
unfolding to_block
to_block-within from current h = ground arith

module _ (Log : Type 0) (logs_at : ℕ → List Log) where
  -- The logs of a number of blocks from one on, in order.
  unfoldable pub logs_from : ℕ → ℕ → List Log
  logs_from from zero = []
  logs_from from (suc n) = logs_at from ++ logs_from (from + 1) n

  same_logs : (a b n k : ℕ) → a ≡ b → n ≡ k → logs_from a n ≡ logs_from b k
  same_logs a b n k h e = rw (h, e) refl

  logs_from_add :
      (a b from : ℕ) → logs_from from (a + b) ≡ logs_from from a ++ logs_from (from + a) b
  unfolding logs_from
  logs_from_add zero b from = same_logs _ _ _ _ (omega arith) (omega arith)
  logs_from_add (suc a) b from =
      same_logs from from (suc a + b) (suc (a + b)) refl (omega arith)
      ∙ ap (λ ls. logs_at from ++ ls)
          (logs_from_add a b (from + 1)
            ∙ ap (λ ls. logs_from (from + 1) a ++ ls)
                (same_logs (from + 1 + a) (from + suc a) b b (omega arith) refl))
      ∙ sym (append_assoc (logs_at from) (logs_from (from + 1) a) (logs_from (from + suc a) b))

  module _ (get_logs : ℕ → ℕ → Option (List Log))
      (answers : (from to : ℕ)
        → from ≤ to
        → to ≤ from + 9
        → get_logs from to ≡ some (logs_from from (to + 1 - from))) where
    collect-logs_from :
        (fuel from current : ℕ)
        → current + 1 - from ≤ fuel
        → collect Log get_logs fuel from current ≡ ok (logs_from from (current + 1 - from))
    unfolding collect logs_from
    collect-logs_from zero from current h =
        rw (past from current h)
          (ap (λ ls. ok ls) (same_logs from from 0 _ refl (omega (arith, h))))
    collect-logs_from (suc fuel) from current h = elim (Bool-cases (leb from current)) [
      | inr over ↦
          rw over (ap (λ ls. ok ls) (same_logs from from 0 _ refl (none_left from current over)))
      | inl more ↦
          let to = to_block from current in
          let t = to_block-within from current (leb→le from current more) in
          rw
            (
              more,
              answers from to t.0 t.1,
              collect-logs_from fuel (to + 1) current (omega (arith, h, t.0)),
            )
            (ap (λ ls. ok ls)
              (ap (λ ls. logs_from from (to + 1 - from) ++ ls)
                  (same_logs (to + 1) (from + (to + 1 - from)) _ _ (omega (arith, t.0)) refl)
                ∙ sym (logs_from_add (to + 1 - from) (current + 1 - (to + 1)) from)
                ∙ same_logs from from _ (current + 1 - from) refl (omega (arith, t.0, t.2))))
    ]

    -- If the client answers every query of at most ten blocks with the logs of these blocks, a check at
    -- a current block above the last one returns the logs of all blocks after the last one up to the
    -- current one, in order and each once, and remembers the current block.
    pub check_for_events-logs_from :
        (w : EventWorker Log) (current : ℕ)
        → w.last_block < current
        → check_for_events Log get_logs w (some current) ≡ (
          record { last_block = current },
          ok (logs_from (w.last_block + 1) (current - w.last_block)),
        )
    unfolding check_for_events
    check_for_events-logs_from w current h =
        rw
          (
            not_seen current w.last_block h,
            collect-logs_from (current - w.last_block) (w.last_block + 1) current
                (omega (arith, h)),
          )
          (ap (λ ls. (record { last_block = current }, ok ls))
            (same_logs _ _ _ _ refl (omega (arith, h))))
