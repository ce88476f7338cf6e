-- ===== src/ContainerPool/Shared.antt =====
-- The container that a call creates is also left for the next call.
use triggerx_backend.Prelude.{
  ℕ, suc, ◌<◌, ◌≡◌, refl, sym, ap, ◌∙◌, subst, Bool, Option, some, List, [], ◌∷◌, ◌++◌, length, ltb,
  lt→ltb, if◌then◌else◌,
}
use triggerx_backend.ContainerPool.Pool.{ContainerPool}
use triggerx_backend.ContainerPool.Calls.{
  Got, got, get_container, take_ready, take_token, create_for,
}

-- In a pool with no ready container, a token and room in the queue, a call that creates a container
-- gets it, and the next call gets the same one, while the first still has it.
pub get_container-shared :
    (p : ContainerPool) (id tokens : ℕ) (created : Option ℕ)
    → p.ready_queue ≡ []
    → p.creation_semaphore ≡ suc tokens
    → 0 < p.max_containers
    → ((get_container (some id) p).1 ≡ got id)
      × ((get_container created (get_container (some id) p).0).1 ≡ got id)
unfolding get_container
get_container-shared p id tokens created e s room =
    subst
      (λ (x : ContainerPool × Got).
        (x.1 ≡ got id) × ((take_ready x.0.ready_queue created x.0).1 ≡ got id))
      (sym (
        ap (λ (q : List ℕ). take_ready q (some id) p) e
        ∙ ap (λ (t : ℕ). take_token t (some id) p) s))
      (refl, ap (λ (q : List ℕ). (take_ready q created after).1) queue)
  where
    after : ContainerPool
    after = (create_for (some id) (record p { creation_semaphore = tokens })).0

    queue : after.ready_queue ≡ id ∷ []
    queue =
        ap (λ (q : List ℕ). if ltb (length q) p.max_containers then q ++ (id ∷ []) else q) e
        ∙ ap (λ (b : Bool). if b then id ∷ [] else []) (lt→ltb 0 p.max_containers room)
