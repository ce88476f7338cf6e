-- ===== src/Retry/Loop.antt =====
-- pkg/retry/retry.go: `Retry`. The operation is the stream of its results, one to an attempt. The
-- context is two streams: whether it is done before attempt n, and whether it ends the sleep after
-- attempt n. Logging is left out.
use triggerx_backend.Prelude.{
  ℕ, zero, suc, Bool, true, false, Option, none, some, List, [], ◌∷◌, if◌then◌else◌,
}
use triggerx_backend.Prelude.Int.{ℤ, pos_part}
use triggerx_backend.Prelude.Results.{Result, ok, err, panic}
use triggerx_backend.Float.{Float64}
use triggerx_backend.Retry.Config.{
  ConfigError, RetryConfig, validate, calculate_delay_with_jitter, calculate_next_delay,
}

-- `invalid` is the error of a refused configuration, `refused` the operation's error when
-- `ShouldRetry` says no, `done` that of the context, `exhausted` the last one, after all attempts.
pub data Outcome (E A : Type 0) : Type 0 where
  success : A → Outcome E A
  invalid : ConfigError → Outcome E A
  refused : E → Outcome E A
  done : Outcome E A
  exhausted : Option E → Outcome E A
  crashed : Outcome E A

-- What a call returns, the number of its attempts, and how long it slept after each.
pub record Run (E A : Type 0) : Type 0 where
  pub outcome : Outcome E A
  pub attempts : ℕ
  pub sleeps : List ℤ

abbrev pub at_once : {E A : Type 0} → Outcome E A → Run E A
at_once o = record { outcome = o; attempts = 0; sleeps = [] }

abbrev pub after_attempt : {E A : Type 0} → Run E A → Run E A
after_attempt r = record r { attempts = suc r.attempts }

abbrev pub after_sleep : {E A : Type 0} → ℤ → Run E A → Run E A
after_sleep d r = record r { sleeps = d ∷ r.sleeps }

abbrev pub allows : {E : Type 0} → Option (E → ℕ → Bool) → E → ℕ → Bool
allows none e n = true
allows (some p) e n = p e n

-- One round of the loop: whether the context is done, what the operation returns, whether its error
-- may be retried, the sleep, whether the context ends it, and the rounds to come.
unfoldable pub round :
    {E A : Type 0} → Bool → Result E A → (E → Bool) → ℤ → Bool → (E → Run E A) → Run E A
round true o allowed d interrupted again = at_once done
round false (ok v) allowed d interrupted again = after_attempt (at_once (success v))
round false panic allowed d interrupted again = after_attempt (at_once crashed)
round false (err e) allowed d interrupted again =
    let rest = again e in
    after_attempt (
      if allowed e
      then after_sleep d (if interrupted then at_once done else rest)
      else at_once (refused e))

module _ (float : Float64) (E A : Type 0) where
  open float use {F}

  -- The world of one call.
  pub record World : Type 0 where
    pub operation : ℕ → Result E A
    pub cancelled : ℕ → Bool
    pub interrupted : ℕ → Bool
    pub random : ℕ → F

  module _ (w : World) (c : RetryConfig float E) where
    abbrev pub sleep_of : ℕ → ℤ → ℤ
    unfolding calculate_delay_with_jitter
    sleep_of attempt delay =
        calculate_delay_with_jitter float E delay c.jitter_factor (w.random attempt)

    -- The loop: the attempts left, the attempt's number, the delay, the last error.
    unfoldable pub retry_loop : ℕ → ℕ → ℤ → Option E → Run E A
    retry_loop zero attempt delay last = at_once (exhausted last)
    retry_loop (suc left) attempt delay last =
        round (w.cancelled attempt) (w.operation attempt)
          (λ e. allows c.should_retry e (suc attempt)) (sleep_of attempt delay)
          (w.interrupted attempt)
          (λ e.
            retry_loop left (suc attempt)
              (calculate_next_delay float E delay c.backoff_factor c.max_delay) (some e))

    unfoldable pub retry : Run E A
    unfolding retry_loop
    retry = elim (validate float E c) [
      | ok _ ↦ retry_loop (pos_part c.max_retries) 0 c.initial_delay none
      | err e ↦ at_once (invalid e)
      | panic ↦ at_once crashed
    ]
