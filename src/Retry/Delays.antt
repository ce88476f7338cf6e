-- ===== src/Retry/Delays.antt =====
-- How long a call of `Retry` sleeps.
use triggerx_backend.Prelude.{
  ℕ, zero, suc, ◌≡◌, Bool, true, false, Option, none, some, All, arith, if◌then◌else◌,
}
use triggerx_backend.Prelude.Int.{ℤ, pos, pos_part, ◌+ℤ◌, ◌≤ℤ◌, +ℤ_parts}
use triggerx_backend.Prelude.Results.{Result, ok, err, panic}
use triggerx_backend.Float.{Float64}
use triggerx_backend.Retry.Config.{
  RetryConfig, validate, calculate_delay_with_jitter, calculate_next_delay-le,
}
use triggerx_backend.Retry.Loop.{Run, World, round, sleep_of, retry_loop, retry}

module _ (float : Float64) (E A : Type 0) (w : World float E A) (c : RetryConfig float E) where
  open float use {F, lt, mul, of_int, to_int}

  round-All :
      (bound : ℤ) (b : Bool) (o : Result E A) (p : E → Bool) (d : ℤ) (i : Bool)
      (again : E → Run E A)
      → d ≤ℤ bound
      → ((e : E) → All (λ s. s ≤ℤ bound) (again e).sleeps)
      → All (λ s. s ≤ℤ bound) (round b o p d i again).sleeps
  unfolding round
  round-All bound true o p d i again h s = tt
  round-All bound false (ok v) p d i again h s = tt
  round-All bound false panic p d i again h s = tt
  round-All bound false (err e) p d i again h s = failed (p e) i
    where
      failed : (x y : Bool) → All (λ s. s ≤ℤ bound) (round false (err e) (λ _. x) d y again).sleeps
      failed false y = tt
      failed true true = (h, tt)
      failed true false = (h, s e)

  module _ (jitter : ℤ)
      (jittered : (base : ℤ) (random : F)
        → base ≤ℤ c.max_delay
        → to_int (mul (mul c.jitter_factor (of_int base)) random) ≤ℤ jitter)
      (non_negative : pos 0 ≤ℤ jitter) where
    sleep_of-le :
        (attempt : ℕ) (delay : ℤ)
        → delay ≤ℤ c.max_delay
        → sleep_of float E A w c attempt delay ≤ℤ c.max_delay +ℤ jitter
    unfolding calculate_delay_with_jitter
    sleep_of-le attempt delay h = bounded (lt (of_int (pos 0)) c.jitter_factor)
      where
        x : ℤ
        x = to_int (mul (mul c.jitter_factor (of_int delay)) (w.random attempt))

        bounded : (b : Bool) → (if b then delay +ℤ x else delay) ≤ℤ c.max_delay +ℤ jitter
        bounded true = omega (
          arith,
          jittered delay (w.random attempt) h,
          +ℤ_parts delay x,
          +ℤ_parts c.max_delay jitter,
        )
        bounded false = omega (arith, +ℤ_parts c.max_delay jitter)

    retry_loop-All :
        (left a : ℕ) (delay : ℤ) (e : Option E)
        → delay ≤ℤ c.max_delay
        → All (λ s. s ≤ℤ c.max_delay +ℤ jitter) (retry_loop float E A w c left a delay e).sleeps
    unfolding retry_loop
    retry_loop-All zero a delay e h = tt
    retry_loop-All (suc left) a delay e h = round-All _ _ _ _ _ _ _ (sleep_of-le a delay h) (λ x.
        retry_loop-All left (suc a) _ (some x)
          (calculate_next_delay-le float E delay c.backoff_factor c.max_delay))

    -- With a valid configuration whose initial delay is within the maximum, and a jitter that never
    -- exceeds `jitter` for a delay within the maximum, every sleep of a call lasts at most the
    -- maximum delay and the jitter together.
    pub retry_sleeps :
        validate float E c ≡ ok tt
        → c.initial_delay ≤ℤ c.max_delay
        → All (λ s. s ≤ℤ c.max_delay +ℤ jitter) (retry float E A w c).sleeps
    unfolding retry
    retry_sleeps valid h =
        rw (valid, retry) (retry_loop-All (pos_part c.max_retries) 0 c.initial_delay none h)
