-- ===== src/Retry/Config.antt =====
-- pkg/retry/retry.go: `RetryConfig`, its validation, and the two delay calculations. A duration is
-- its int64 number of nanoseconds.
use triggerx_backend.Prelude.{ℕ, Bool, Option, ◌||◌, arith, if◌then◌else◌}
use triggerx_backend.Prelude.Int.{ℤ, pos, ltb_ℤ, leb_ℤ, ◌+ℤ◌, ◌≤ℤ◌}
use triggerx_backend.Prelude.Results.{Result, reject_if, ◌>>◌}
use triggerx_backend.Float.{Float64}

pub data ConfigError : Type 0 where
  negative_max_retries non_positive_initial_delay non_positive_max_delay : ConfigError
  small_backoff_factor jitter_factor_out_of_range : ConfigError

module _ (float : Float64) (E : Type 0) where
  open float use {F, lt, mul, of_int, to_int}

  pub record RetryConfig : Type 0 where
    pub max_retries : ℤ
    pub initial_delay : ℤ
    pub max_delay : ℤ
    pub backoff_factor : F
    pub jitter_factor : F
    pub should_retry : Option (E → ℕ → Bool)

  unfoldable pub validate : RetryConfig → Result ConfigError (Unit {0})
  validate c = do
    reject_if (ltb_ℤ c.max_retries (pos 0)) negative_max_retries
    reject_if (leb_ℤ c.initial_delay (pos 0)) non_positive_initial_delay
    reject_if (leb_ℤ c.max_delay (pos 0)) non_positive_max_delay
    reject_if (lt c.backoff_factor (of_int (pos 1))) small_backoff_factor
    reject_if (lt c.jitter_factor (of_int (pos 0)) || lt (of_int (pos 1)) c.jitter_factor)
        jitter_factor_out_of_range

  -- The random number of `SecureFloat64` is the last argument.
  unfoldable pub calculate_delay_with_jitter : ℤ → F → F → ℤ
  calculate_delay_with_jitter base_delay jitter_factor random =
      if lt (of_int (pos 0)) jitter_factor
      then base_delay +ℤ to_int (mul (mul jitter_factor (of_int base_delay)) random)
      else base_delay

  unfoldable pub calculate_next_delay : ℤ → F → ℤ → ℤ
  calculate_next_delay current_delay backoff_factor max_delay =
      let next_delay = to_int (mul (of_int current_delay) backoff_factor) in
      if ltb_ℤ max_delay next_delay then max_delay else next_delay

  -- Whatever the factor, a computed delay is within the maximum.
  pub calculate_next_delay-le :
      (current : ℤ) (factor : F) (max_delay : ℤ)
      → calculate_next_delay current factor max_delay ≤ℤ max_delay
  unfolding calculate_next_delay
  calculate_next_delay-le current factor max_delay = ground arith
