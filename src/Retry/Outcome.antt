-- ===== src/Retry/Outcome.antt =====
-- What a call of `Retry` returns, against the stream of the operation's results.
use triggerx_backend.Prelude.{
  ℕ, zero, suc, ◌+◌, ◌<◌, ◌≤◌, ◌≡◌, refl, ap, Bool, true, false, Option, none, some, length, arith,
  if◌then◌else◌, ◌∙◌,
}
use native.Mathlib.Nat.{add-zero, zero-add}
use triggerx_backend.Prelude.Int.{ℤ, pos_part}
use triggerx_backend.Prelude.Results.{Result, ok, err, panic}
use triggerx_backend.Float.{Float64}
use triggerx_backend.Retry.Config.{RetryConfig, validate, calculate_next_delay}
use triggerx_backend.Retry.Loop.{
  Outcome, success, exhausted, Run, done, refused, at_once, after_attempt, after_sleep, allows,
  round, World, retry_loop, retry,
}

success-injective : {E A : Type 0} {u v : A} → ◌≡◌ {A = Outcome E A} (success u) (success v) → u ≡ v
success-injective h = cc

suc-add-eq : (a j : ℕ) → a + suc j ≡ suc a + j
suc-add-eq a j = omega arith

module _ (float : Float64) (E A : Type 0) (w : World float E A) (c : RetryConfig float E) where
  -- A failed attempt after which the loop goes on.
  pub record Retries (j : ℕ) : Type 0 where
    pub reason : E
    pub failed : w.operation j ≡ err reason
    pub allowed : allows c.should_retry reason (suc j) ≡ true
    pub waited : w.interrupted j ≡ false

  -- What is claimed of a run of the loop that starts at attempt `a` with `left` attempts to go.
  pub record IsSound (left a : ℕ) (r : Run E A) : Type 0 where
    pub bounded : r.attempts ≤ left
    pub rested : length r.sleeps ≤ r.attempts
    pub last :
        (v : A)
        → r.outcome ≡ success v
        → (n : ℕ) × (r.attempts ≡ suc n) × (w.operation (a + n) ≡ ok v)
    pub all :
        (e : Option E) → r.outcome ≡ exhausted e → (r.attempts ≡ left) × (length r.sleeps ≡ left)

  round-IsSound :
      (left a : ℕ) (b : Bool) (o : Result E A) (p : E → Bool) (d : ℤ) (i : Bool)
      (again : E → Run E A)
      → w.operation a ≡ o
      → ((e : E) → IsSound left (suc a) (again e))
      → IsSound (suc left) a (round b o p d i again)
  unfolding round
  round-IsSound left a true o p d i again h s = record {
    bounded = omega arith;
    rested = omega arith;
    last = λ v q. cc;
    all = λ e q. cc;
  }
  round-IsSound left a false (ok v) p d i again h s = record {
    bounded = omega arith;
    rested = omega arith;
    last = λ u q. (0, refl, rw add-zero (h ∙ ap ok (success-injective q)));
    all = λ e q. cc;
  }
  round-IsSound left a false panic p d i again h s = record {
    bounded = omega arith;
    rested = omega arith;
    last = λ v q. cc;
    all = λ e q. cc;
  }
  round-IsSound left a false (err e) p d i again h s = failed (p e) i
    where
      failed :
          (x y : Bool)
          → IsSound (suc left) a (
              after_attempt (
                if x
                then after_sleep d (if y then at_once done else again e)
                else at_once (refused e)))
      failed false y = record {
        bounded = omega arith;
        rested = omega arith;
        last = λ v q. cc;
        all = λ e q. cc;
      }
      failed true true = record {
        bounded = omega arith;
        rested = omega arith;
        last = λ v q. cc;
        all = λ e q. cc;
      }
      failed true false = record {
        bounded = omega (arith, (s e).bounded);
        rested = omega (arith, (s e).rested);
        last = λ v q.
            let (n, more, found) = (s e).last v q in
            (suc n, ap suc more, rw (suc-add-eq a n) found);
        all = λ x q. let (n, m) = (s e).all x q in (ap suc n, ap suc m);
      }

  retry_loop-IsSound :
      (left a : ℕ) (delay : ℤ) (e : Option E)
      → IsSound left a (retry_loop float E A w c left a delay e)
  unfolding retry_loop
  retry_loop-IsSound zero a delay e = record {
    bounded = omega arith;
    rested = omega arith;
    last = λ v h. cc;
    all = λ e h. (refl, refl);
  }
  retry_loop-IsSound (suc left) a delay e =
      round-IsSound left a _ _ _ _ _ _ refl (λ x. retry_loop-IsSound left (suc a) _ (some x))

  -- A call of `Retry` with a valid configuration makes at most `MaxRetries` attempts and sleeps
  -- after no more of them. If it returns a value, that is what the last attempt returned. If it
  -- returns the error of having failed after all attempts, it made `MaxRetries` of them and slept
  -- after each, the last one included.
  pub retry-IsSound :
      validate float E c ≡ ok tt → IsSound (pos_part c.max_retries) 0 (retry float E A w c)
  unfolding retry
  retry-IsSound h =
      rw (h, retry) (retry_loop-IsSound (pos_part c.max_retries) 0 c.initial_delay none)

  round-Retries :
      (j : ℕ) (d : ℤ) (again : E → Run E A) (r : Retries j)
      → w.cancelled j ≡ false
      → round
          (w.cancelled j)
          (w.operation j)
          (λ e. allows c.should_retry e (suc j))
          d
          (w.interrupted j)
          again
        ≡ after_attempt (after_sleep d (again r.reason))
  unfolding round
  round-Retries j d again r live = rw (live, r.failed, round, r.allowed, r.waited)

  retry_loop_finds :
      (k left a : ℕ) (delay : ℤ) (e : Option E) (v : A)
      → k < left
      → ((j : ℕ) → j ≤ k → w.cancelled (a + j) ≡ false)
      → ((j : ℕ) → j < k → Retries (a + j))
      → w.operation (a + k) ≡ ok v
      → let r = retry_loop float E A w c left a delay e in
        (r.outcome ≡ success v) × (r.attempts ≡ suc k) × (length r.sleeps ≡ k)
  unfolding retry_loop round
  retry_loop_finds k zero a delay e v h live fails found = elim h [ ]
  retry_loop_finds zero (suc left) a delay e v h live fails found =
      let here : w.operation a ≡ ok v = rw add-zero at found in
      let now : w.cancelled a ≡ false = rw add-zero at (live 0 (omega arith)) in
      rw (now, here, round) (refl, refl, refl)
  retry_loop_finds (suc k) (suc left) a delay e v h live fails found =
      let r : Retries a = rw add-zero at (fails 0 (omega arith)) in
      let now : w.cancelled a ≡ false = rw add-zero at (live 0 (omega arith)) in
      let rest =
        retry_loop_finds k left (suc a)
          (calculate_next_delay float E delay c.backoff_factor c.max_delay) (some r.reason) v
          (omega arith) (λ j l. rw suc-add-eq at (live (suc j) (omega arith)))
          (λ j l. rw suc-add-eq at (fails (suc j) (omega arith))) (rw suc-add-eq at found) in
      rw (round-Retries a _ _ r now) (rest.0, ap suc rest.1, ap suc rest.2)

  -- With a valid configuration, if attempt k (below `MaxRetries`) is the first to succeed, the
  -- attempts before it failed with errors that may be retried, and the context is never done up to
  -- then, `Retry` returns that attempt's value, after k + 1 attempts and k sleeps.
  pub retry_finds :
      (k : ℕ) (v : A)
      → validate float E c ≡ ok tt
      → k < pos_part c.max_retries
      → ((j : ℕ) → j ≤ k → w.cancelled j ≡ false)
      → ((j : ℕ) → j < k → Retries j)
      → w.operation k ≡ ok v
      → let r = retry float E A w c in
        (r.outcome ≡ success v) × (r.attempts ≡ suc k) × (length r.sleeps ≡ k)
  unfolding retry
  retry_finds k v valid h live fails found =
      rw (valid, retry)
        (retry_loop_finds k (pos_part c.max_retries) 0 c.initial_delay none v h
          (λ j l. rw zero-add (live j l)) (λ j l. rw zero-add (fails j l)) (rw zero-add found))
