-- ===== src/Retry/Tests.antt =====
-- A call of `Retry` that fails twice and then succeeds.
use triggerx_backend.Prelude.{
  ℕ, zero, suc, ◌≤◌, ◌≡◌, refl, false, some, [], ◌∷◌, length, arith, ltb,
}
use triggerx_backend.Prelude.Int.{ℤ, pos, ◌+ℤ◌, ◌*ℤ◌, ◌≤ℤ◌}
use triggerx_backend.Prelude.Results.{Result, ok, err}
use triggerx_backend.Float.{exact, to_int64}
use triggerx_backend.Retry.Config.{
  RetryConfig, validate, calculate_delay_with_jitter, calculate_next_delay,
}
use triggerx_backend.Retry.Loop.{success, World, round, retry}
use triggerx_backend.Retry.Outcome.{Retries, IsSound, retry-IsSound, retry_finds}

abbrev config : RetryConfig exact ℕ
config = record {
  max_retries = pos 5;
  initial_delay = pos 10;
  max_delay = pos 15;
  backoff_factor = pos 2;
  jitter_factor = pos 0;
  should_retry = some (λ e n. ltb e 7);
}

third : ℕ → Result ℕ ℕ
third zero = err 3
third (suc zero) = err 4
third (suc (suc n)) = ok 42

abbrev world : World exact ℕ ℕ
world = record {
  operation = third;
  cancelled = λ n. false;
  interrupted = λ n. false;
  random = λ n. pos 0;
}

valid : validate exact ℕ config ≡ ok tt
unfolding validate
valid = refl

run :
    retry exact ℕ ℕ world config
    ≡ record { outcome = success 42; attempts = 3; sleeps = pos 10 ∷ pos 15 ∷ [] }
unfolding retry round third validate calculate_delay_with_jitter calculate_next_delay ◌*ℤ◌ ◌+ℤ◌
    to_int64
run = refl

retry-IsSound_example : IsSound exact ℕ ℕ world config 5 0 (retry exact ℕ ℕ world config)
retry-IsSound_example = retry-IsSound exact ℕ ℕ world config valid

fails : (j : ℕ) → suc j ≤ 2 → Retries exact ℕ ℕ world config j
unfolding third
fails zero h = record { reason = 3; failed = refl; allowed = refl; waited = refl }
fails (suc zero) h = record { reason = 4; failed = refl; allowed = refl; waited = refl }
fails (suc (suc j)) h = absurd (omega arith)

retry_finds_example :
    let r = retry exact ℕ ℕ world config in
    (r.outcome ≡ success 42) × (r.attempts ≡ 3) × (length r.sleeps ≡ 2)
unfolding third
retry_finds_example =
    retry_finds exact ℕ ℕ world config 2 42 valid (omega arith) (λ j h. refl) fails refl

no_jitter : (base random : ℤ) → base ≤ℤ pos 15 → pos 0 *ℤ base *ℤ random ≤ℤ pos 0
unfolding ◌*ℤ◌
no_jitter base random h = ground arith
