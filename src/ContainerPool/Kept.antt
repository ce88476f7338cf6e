-- ===== src/ContainerPool/Kept.antt =====
-- The bounds of a pool, and each change of it that keeps them.
use triggerx_backend.Prelude.{
  ℕ, zero, suc, ◌+◌, ◌≤◌, ◌≡◌, refl, ap, Bool, true, false, Option, none, some, List, [], ◌∷◌,
  length, length-append, ltb, ℕ_discrete, arith,
}
use triggerx_backend.Prelude.Maps.{contains, insert, remove, contains-insert, contains-remove}
use triggerx_backend.ContainerPool.Pool.{
  ContainerPool, ready, failing, set_status, enqueue, release_token, drop_container, update_stats,
}
use triggerx_backend.ContainerPool.Calls.{
  add_prepared, take_token, take_ready, put_back, after_reset,
}

length-insert : (id : ℕ) (s : List ℕ) → length (insert ℕ_discrete id s) ≤ suc (length s)
unfolding insert
length-insert id [] = omega arith
length-insert id (j ∷ s) = ground (arith, length-insert id s)

length-remove_any : (id : ℕ) (s : List ℕ) → length (remove ℕ_discrete id s) ≤ length s
unfolding remove
length-remove_any id [] = omega arith
length-remove_any id (j ∷ s) = ground (arith, length-remove_any id s)

length-remove :
    (id : ℕ) (s : List ℕ)
    → contains ℕ_discrete id s ≡ true
    → suc (length (remove ℕ_discrete id s)) ≤ length s
unfolding contains remove
length-remove id [] e = cc
length-remove id (j ∷ s) e = ground (arith, length-remove id s, length-remove_any id s)

-- No container stands twice.
abbrev pub Once : List ℕ → Type 0
Once [] = Unit
Once (id ∷ s) = (contains ℕ_discrete id s ≡ false) × Once s

insert-Once : (id : ℕ) (s : List ℕ) → Once s → Once (insert ℕ_discrete id s)
unfolding contains insert
insert-Once id [] o = (refl, tt)
insert-Once id (j ∷ s) o =
    ground (arith, contains-insert ℕ_discrete id j s, insert-Once id s o.1, o.0)

remove-Once : (id : ℕ) (s : List ℕ) → Once s → Once (remove ℕ_discrete id s)
unfolding remove
remove-Once id [] o = tt
remove-Once id (j ∷ s) o =
    ground (arith, contains-remove ℕ_discrete id j s, remove-Once id s o.1, o.0)

-- Containers and tokens together, the tokens alone, the queue, and each container once.
abbrev pub Bounded : ℕ → ContainerPool → Type 0
Bounded n p =
    (length p.containers + p.creation_semaphore ≤ n)
    × (p.creation_semaphore ≤ p.max_containers)
    × (length p.ready_queue ≤ p.max_containers)
    × Once p.containers

pub enqueue-Bounded : (n id : ℕ) (p : ContainerPool) → Bounded n p → Bounded n (enqueue id p)
enqueue-Bounded n id p h =
    (h.0, h.1, ground (arith, length-append p.ready_queue (id ∷ []), h.2), h.3)

-- A container leaves and its token comes back.
pub released-Bounded :
    (n id : ℕ) (p : ContainerPool)
    → contains ℕ_discrete id p.containers ≡ true
    → Bounded n p
    → Bounded n (release_token (drop_container id p))
released-Bounded n id p c h = (
  ground (arith, length-remove id p.containers c, h.0),
  ground (arith, h.1),
  h.2,
  remove-Once id p.containers h.3,
)

pub add_prepared-Bounded :
    (n id : ℕ) (p : ContainerPool) → Bounded n p → Bounded (suc n) (add_prepared id p)
add_prepared-Bounded n id p h = (
  omega (arith, length-insert id p.containers, h.0),
  h.1,
  ground (arith, length-append p.ready_queue (id ∷ []), h.2),
  insert-Once id p.containers h.3,
)

take_token-Bounded :
    (n t : ℕ) (created : Option ℕ) (p : ContainerPool)
    → p.creation_semaphore ≡ t
    → Bounded n p
    → Bounded n (take_token t created p).0
take_token-Bounded n zero created p e h = h
take_token-Bounded n (suc t) none p e h = (omega (arith, e, h.0), omega (arith, e, h.1), h.2, h.3)
take_token-Bounded n (suc t) (some id) p e h = (
  omega (arith, length-insert id p.containers, h.0, e),
  omega (arith, h.1, e),
  ground (arith, length-append p.ready_queue (id ∷ []), h.2),
  insert-Once id p.containers h.3,
)

pub take_ready-Bounded :
    (n : ℕ) (q : List ℕ) (created : Option ℕ) (p : ContainerPool)
    → p.ready_queue ≡ q
    → Bounded n p
    → Bounded n (take_ready q created p).0
take_ready-Bounded n [] created p e h = take_token-Bounded n p.creation_semaphore created p refl h
take_ready-Bounded n (id ∷ rest) created p e h =
    (h.0, h.1, omega (arith, ap (λ (q : List ℕ). length q) e, h.2), h.3)

pub after_reset-Bounded :
    (n : ℕ) (reset cleanup : Bool) (id : ℕ) (p : ContainerPool)
    → contains ℕ_discrete id p.containers ≡ true
    → Bounded n p
    → Bounded n (after_reset reset cleanup id p)
after_reset-Bounded n false true id p c h =
    released-Bounded n id (update_stats (set_status id failing p)) c h
after_reset-Bounded n false false id p c h = h
after_reset-Bounded n true cleanup id p c h = go (ltb (length p.ready_queue) p.max_containers)
  where
    go : (b : Bool) → Bounded n (put_back b id (update_stats (set_status id ready p)))
    go true = enqueue-Bounded n id (update_stats (set_status id ready p)) h
    go false = h
