-- ===== src/ContainerPool/Bound.antt =====
-- How many containers a pool holds after any calls.
use triggerx_backend.Prelude.{
  ℕ, suc, ◌+◌, ◌≡◌, refl, ap, ◌∙◌, Bool, true, false, Option, none, some, List, [], ◌∷◌, ◌++◌,
  length, ltb, if◌then◌else◌, ℕ_discrete, arith, Bool-cases, inl, inr,
}
use triggerx_backend.Prelude.Maps.{contains, contains-remove}
use triggerx_backend.ContainerPool.Pool.{
  ContainerPool, ready, failing, is_ready, is_failing, set_status, enqueue, release_token,
  drop_container, new_container_pool,
}
use triggerx_backend.ContainerPool.Calls.{
  add_prepared, get_container, return_container, Inspected, is_up, is_down, inspect_failed,
  inspected, inspect_all, remove_all, health_check, mark_container_as_failed, populate, add_created,
  initialize, close, close_once, PoolCall, gets, returns, checks_health, marks_failed, closes,
  pool_call, pool_calls,
}
use triggerx_backend.ContainerPool.Kept.{
  Once, Bounded, enqueue-Bounded, released-Bounded, add_prepared-Bounded, take_ready-Bounded,
  after_reset-Bounded,
}

-- The containers to remove are some of those inspected, each once.
inspect_all-some :
    (inspect : ℕ → Inspected) (ids : List ℕ) (p : ContainerPool) (j : ℕ)
    → contains ℕ_discrete j ids ≡ false
    → contains ℕ_discrete j (inspect_all inspect ids p).1 ≡ false
unfolding contains
inspect_all-some inspect [] p j e = refl
inspect_all-some inspect (id ∷ ids) p j e =
    go (inspect id)
      (inspect_all-some inspect ids (inspected (inspect id) id p).0 j (ground (arith, e)))
  where
    go :
        (x : Inspected)
        → contains ℕ_discrete j (inspect_all inspect ids (inspected (inspect id) id p).0).1 ≡ false
        → contains ℕ_discrete j
            ((inspected x id p).1 ++ (inspect_all inspect ids (inspected (inspect id) id p).0).1)
          ≡ false
    go is_up h = h
    go is_down h = ground (arith, e)
    go inspect_failed h = ground (arith, e)

inspect_all-Once :
    (inspect : ℕ → Inspected) (ids : List ℕ) (p : ContainerPool)
    → Once ids
    → Once (inspect_all inspect ids p).1
inspect_all-Once inspect [] p o = tt
inspect_all-Once inspect (id ∷ ids) p o =
    go (inspect id) (inspect_all-some inspect ids (inspected (inspect id) id p).0 id o.0)
      (inspect_all-Once inspect ids (inspected (inspect id) id p).0 o.1)
  where
    go :
        (x : Inspected)
        → contains ℕ_discrete id (inspect_all inspect ids (inspected (inspect id) id p).0).1 ≡ false
        → Once (inspect_all inspect ids (inspected (inspect id) id p).0).1
        → Once ((inspected x id p).1 ++ (inspect_all inspect ids (inspected (inspect id) id p).0).1)
    go is_up c h = h
    go is_down c h = (c, h)
    go inspect_failed c h = (c, h)

-- An inspection changes statuses alone.
inspect_all-Bounded :
    (n : ℕ) (inspect : ℕ → Inspected) (ids : List ℕ) (p : ContainerPool)
    → Bounded n p
    → Bounded n (inspect_all inspect ids p).0
      × ((inspect_all inspect ids p).0.containers ≡ p.containers)
inspect_all-Bounded n inspect [] p h = (h, refl)
inspect_all-Bounded n inspect (id ∷ ids) p h =
    let (first, same) = go (inspect id) in
    let (rest, same') = inspect_all-Bounded n inspect ids (inspected (inspect id) id p).0 first in
    (rest, same' ∙ same)
  where
    up :
        (b : Bool)
        → Bounded n (if b then set_status id ready p else p)
          × ((if b then set_status id ready p else p).containers ≡ p.containers)
    up true = (h, refl)
    up false = (h, refl)

    go :
        (x : Inspected)
        → Bounded n (inspected x id p).0 × ((inspected x id p).0.containers ≡ p.containers)
    go is_up = up (is_failing (p.status id))
    go is_down = (h, refl)
    go inspect_failed = (h, refl)

remove_all-Bounded :
    (n : ℕ) (ids : List ℕ) (p : ContainerPool)
    → Once ids
    → ((j : ℕ) → contains ℕ_discrete j ids ≡ true → contains ℕ_discrete j p.containers ≡ true)
    → Bounded n p
    → Bounded n (remove_all ids p)
unfolding contains
remove_all-Bounded n [] p o held h = h
remove_all-Bounded n (id ∷ ids) p o held h =
    remove_all-Bounded n ids (release_token (drop_container id p)) o.1
      (λ j e. ground (arith, contains-remove ℕ_discrete id j p.containers, held j, e, o.0))
      (released-Bounded n id p (held id (ground arith)) h)

health_check-Bounded :
    (n : ℕ) (inspect : ℕ → Inspected) (p : ContainerPool)
    → Bounded n p
    → Bounded n (health_check inspect p)
unfolding health_check
health_check-Bounded n inspect p h =
    let (q, same) = inspect_all-Bounded n inspect p.containers p h in
    remove_all-Bounded n (inspect_all inspect p.containers p).1
      (inspect_all inspect p.containers p).0 (inspect_all-Once inspect p.containers p h.3)
      (λ j e.
        ap (contains ℕ_discrete j) same ∙ elim (Bool-cases (contains ℕ_discrete j p.containers)) [
          | inl x ↦ x
          | inr x ↦ cc (inspect_all-some inspect p.containers p j x, e)
        ])
      q

guarded-Bounded :
    (n : ℕ) (b : Bool) (p q : ContainerPool)
    → Bounded n p
    → (b ≡ true → Bounded n q)
    → Bounded n (if b then q else p)
guarded-Bounded n true p q h k = k refl
guarded-Bounded n false p q h k = h

pool_call-Bounded :
    (n : ℕ) (p : ContainerPool) (c : PoolCall) → Bounded n p → Bounded n (pool_call p c)
unfolding pool_call get_container return_container mark_container_as_failed close
pool_call-Bounded n p (gets created) h = take_ready-Bounded n p.ready_queue created p refl h
pool_call-Bounded n p (returns reset cleanup id) h =
    guarded-Bounded n (contains ℕ_discrete id p.containers) p _ h
      (λ c. after_reset-Bounded n reset cleanup id p c h)
pool_call-Bounded n p (checks_health inspect) h = health_check-Bounded n inspect p h
pool_call-Bounded n p (marks_failed id) h =
    guarded-Bounded n (contains ℕ_discrete id p.containers) p _ h
      (λ c. released-Bounded n id (set_status id failing p) c h)
pool_call-Bounded n p closes h = go p.health_stopped
  where
    go : (b : Bool) → Bounded n (close_once b p).0
    go true = h
    go false = (omega (arith, h.0), h.1, h.2, tt)

pool_calls-Bounded :
    (n : ℕ) (cs : List PoolCall) (p : ContainerPool) → Bounded n p → Bounded n (pool_calls p cs)
unfolding pool_calls
pool_calls-Bounded n [] p h = h
pool_calls-Bounded n (c ∷ cs) p h =
    pool_calls-Bounded n cs (pool_call p c) (pool_call-Bounded n p c h)

-- The creations in advance that succeeded.
abbrev pub succeeded : List (Option ℕ) → ℕ
succeeded [] = 0
succeeded (none ∷ rest) = succeeded rest
succeeded (some id ∷ rest) = suc (succeeded rest)

add_created-Bounded :
    (n : ℕ) (created : List (Option ℕ)) (p : ContainerPool)
    → Bounded n p
    → Bounded (succeeded created + n) (add_created created p)
add_created-Bounded n [] p h = (omega (arith, h.0), h.1, h.2, h.3)
add_created-Bounded n (none ∷ rest) p h = add_created-Bounded n rest p h
add_created-Bounded n (some id ∷ rest) p h =
    let b = add_created-Bounded (suc n) rest (add_prepared id p) (add_prepared-Bounded n id p h) in
    (omega (arith, b.0), b.1, b.2, b.3)

populate-Bounded :
    (n : ℕ) (ids : List ℕ) (p : ContainerPool) → Bounded n p → Bounded n (populate ids p)
populate-Bounded n [] p h = h
populate-Bounded n (id ∷ ids) p h =
    go (is_ready (p.status id)) (ltb (length p.ready_queue) p.max_containers)
      (populate-Bounded n ids (enqueue id p) (enqueue-Bounded n id p h))
      (populate-Bounded n ids p h)
  where
    go :
        (b c : Bool)
        → Bounded n (populate ids (enqueue id p))
        → Bounded n (populate ids p)
        → Bounded n (if b then (if c then populate ids (enqueue id p) else p) else populate ids p)
    go true true x y = x
    go true false x y = h
    go false c x y = y

-- After any calls on an initialized pool: containers and free tokens are together at most as many
-- as the configured maximum and the creations in advance that succeeded; the semaphore and the queue
-- stay within the maximum, and no container is in the pool twice.
pub initialize-calls-Bounded :
    (min max : ℕ) (created : List (Option ℕ)) (lasts : Bool) (cs : List PoolCall)
    → Bounded
        (succeeded created + max)
        (pool_calls (initialize created lasts (new_container_pool min max)) cs)
unfolding initialize
initialize-calls-Bounded min max created lasts cs =
    pool_calls-Bounded (succeeded created + max) cs _ (
      go lasts (
        add_created-Bounded max created (new_container_pool min max)
          (omega arith, omega arith, omega arith, tt)))
  where
    go :
        (b : Bool)
        → Bounded (succeeded created + max) (add_created created (new_container_pool min max))
        → Bounded (succeeded created + max) (initialize created b (new_container_pool min max))
    go true h =
        populate-Bounded (succeeded created + max)
          (add_created created (new_container_pool min max)).containers
          (add_created created (new_container_pool min max)) h
    go false h = h
