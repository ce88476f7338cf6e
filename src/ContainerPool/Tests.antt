-- ===== src/ContainerPool/Tests.antt =====
-- A pool of at most one container, with one created in advance.
use triggerx_backend.Prelude.{◌≡◌, refl, true, none, some, [], ◌∷◌, arith, ℕ_discrete}
use triggerx_backend.Prelude.Maps.{insert}
use triggerx_backend.ContainerPool.Pool.{ContainerPool, new_container_pool}
use triggerx_backend.ContainerPool.Calls.{
  got, get_container, initialize, gets, pool_call, pool_calls,
}
use triggerx_backend.ContainerPool.Kept.{Bounded}
use triggerx_backend.ContainerPool.Bound.{initialize-calls-Bounded}
use triggerx_backend.ContainerPool.Shared.{get_container-shared}

abbrev pool : ContainerPool
pool = new_container_pool 1 1

get_container-shared_example :
    ((get_container (some 5) pool).1 ≡ got 5)
    × ((get_container none (get_container (some 5) pool).0).1 ≡ got 5)
get_container-shared_example = get_container-shared pool 5 0 none refl refl (omega arith)

initialize-calls-Bounded_example :
    Bounded 2 (pool_calls (initialize (some 5 ∷ []) true pool) (gets none ∷ gets (some 6) ∷ []))
initialize-calls-Bounded_example =
    initialize-calls-Bounded 1 1 (some 5 ∷ []) true (gets none ∷ gets (some 6) ∷ [])

-- The second call has a token still, so that the pool has two containers.
tests : Unit {0}
unfolding pool_calls pool_call initialize get_container insert ℕ_discrete
tests = tt
  where
    two :
        (pool_calls
          (initialize (some 5 ∷ []) true pool)
          (gets none ∷ gets (some 6) ∷ [])).containers
        ≡ 5 ∷ 6 ∷ []
    two = refl
