-- ===== src/ContainerPool/Calls.antt =====
-- pkg/dockerexecutor/container/pool.go: the operations of the pool.
use triggerx_backend.Prelude.{
  ℕ, zero, suc, ◌+◌, Bool, true, false, Option, none, some, List, [], ◌∷◌, ◌++◌, length, ltb,
  if◌then◌else◌, ℕ_discrete,
}
use triggerx_backend.Prelude.Results.{Result, ok, panic}
use triggerx_backend.Prelude.Maps.{contains, insert}
use triggerx_backend.ContainerPool.Pool.{
  running, ready, failing, ContainerPool, is_ready, is_failing, update_stats, set_status, enqueue,
  release_token, drop_container,
}

-- A container that Docker has created and initialized, or its failure.
abbrev pub add_prepared : ℕ → ContainerPool → ContainerPool
add_prepared id p = enqueue id (
    update_stats (
      set_status id ready (record p {
        containers = insert ℕ_discrete id p.containers;
        created_count = p.created_count + 1;
      })))

-- A call for a container is served, fails in the creation, or waits for one to come back.
pub data Got : Type 0 where
  got : ℕ → Got
  creation_failed : Got
  waits : Got

abbrev pub serve : ℕ → List ℕ → ContainerPool → ContainerPool × Got
serve id rest p = (update_stats (set_status id running (record p { ready_queue = rest })), got id)

abbrev pub create_for : Option ℕ → ContainerPool → ContainerPool × Got
create_for (some id) p = (set_status id running (add_prepared id p), got id)
create_for none p = (record p { creation_semaphore = suc p.creation_semaphore }, creation_failed)

abbrev pub take_token : ℕ → Option ℕ → ContainerPool → ContainerPool × Got
take_token zero created p = (p, waits)
take_token (suc tokens) created p = create_for created (record p { creation_semaphore = tokens })

abbrev pub take_ready : List ℕ → Option ℕ → ContainerPool → ContainerPool × Got
take_ready (id ∷ rest) created p = serve id rest p
take_ready [] created p = take_token p.creation_semaphore created p

-- A call that waits takes the first container of the queue when one is there again: the same call,
-- made then.
unfoldable pub get_container : Option ℕ → ContainerPool → ContainerPool × Got
get_container created p = take_ready p.ready_queue created p

abbrev pub signal_waiting : ContainerPool → ContainerPool
signal_waiting p = record p {
  wait_queue = if ltb p.wait_queue p.max_containers then suc p.wait_queue else p.wait_queue;
}

abbrev pub put_back : Bool → ℕ → ContainerPool → ContainerPool
put_back true id p = enqueue id p
put_back false id p = signal_waiting p

abbrev pub cleaned_up : Bool → ℕ → ContainerPool → ContainerPool
cleaned_up true id p = release_token (drop_container id p)
cleaned_up false id p = p

abbrev pub after_reset : Bool → Bool → ℕ → ContainerPool → ContainerPool
after_reset true cleanup id p =
    put_back (ltb (length p.ready_queue) p.max_containers) id (update_stats (set_status id ready p))
after_reset false cleanup id p = cleaned_up cleanup id (update_stats (set_status id failing p))

-- `reset` and `cleanup` say whether Docker resets the container, or else removes it.
unfoldable pub return_container : Bool → Bool → ℕ → ContainerPool → ContainerPool
return_container reset cleanup id p =
    if contains ℕ_discrete id p.containers then after_reset reset cleanup id p else p

pub data Inspected : Type 0 where
  is_up is_down inspect_failed : Inspected

-- An error state is left when the container runs; the others are to be removed.
abbrev pub inspected : Inspected → ℕ → ContainerPool → ContainerPool × List ℕ
inspected is_up id p = ((if is_failing (p.status id) then set_status id ready p else p), [])
inspected is_down id p = (set_status id failing p, id ∷ [])
inspected inspect_failed id p = (set_status id failing p, id ∷ [])

abbrev pub inspect_all : (ℕ → Inspected) → List ℕ → ContainerPool → ContainerPool × List ℕ
inspect_all inspect [] p = (p, [])
inspect_all inspect (id ∷ ids) p =
    let first = inspected (inspect id) id p in
    let rest = inspect_all inspect ids first.0 in (rest.0, first.1 ++ rest.1)

abbrev pub remove_all : List ℕ → ContainerPool → ContainerPool
remove_all [] p = p
remove_all (id ∷ ids) p = remove_all ids (release_token (drop_container id p))

unfoldable pub health_check : (ℕ → Inspected) → ContainerPool → ContainerPool
health_check inspect p =
    let s = inspect_all inspect p.containers p in update_stats (remove_all s.1 s.0)

unfoldable pub mark_container_as_failed : ℕ → ContainerPool → ContainerPool
mark_container_as_failed id p =
    if contains ℕ_discrete id p.containers
    then release_token (update_stats (drop_container id (set_status id failing p)))
    else p

abbrev pub populate : List ℕ → ContainerPool → ContainerPool
populate [] p = p
populate (id ∷ ids) p =
    let rest = populate ids (enqueue id p) in
    let skipped = populate ids p in
    if is_ready (p.status id)
    then (if ltb (length p.ready_queue) p.max_containers then rest else p)
    else skipped

abbrev pub add_created : List (Option ℕ) → ContainerPool → ContainerPool
add_created [] p = p
add_created (none ∷ rest) p = add_created rest p
add_created (some id ∷ rest) p = add_created rest (add_prepared id p)

-- The results of the creations in the order in which they end, and whether the context lasts so long.
unfoldable pub initialize : List (Option ℕ) → Bool → ContainerPool → ContainerPool
initialize created lasts p =
    let q = add_created created p in if lasts then populate q.containers q else q

abbrev pub close_once : Bool → ContainerPool → ContainerPool × Result (Unit {0}) (Unit {0})
close_once true p = (p, panic)
close_once false p = (record p { containers = []; health_stopped = true }, ok tt)

-- Closing the channel `stopHealth` twice panics; what Docker answers is only logged.
unfoldable pub close : ContainerPool → ContainerPool × Result (Unit {0}) (Unit {0})
close p = close_once p.health_stopped p

pub data PoolCall : Type 0 where
  gets : Option ℕ → PoolCall
  returns : Bool → Bool → ℕ → PoolCall
  checks_health : (ℕ → Inspected) → PoolCall
  marks_failed : ℕ → PoolCall
  closes : PoolCall

unfoldable pub pool_call : ContainerPool → PoolCall → ContainerPool
unfolding get_container return_container health_check mark_container_as_failed close
pool_call p (gets created) = (get_container created p).0
pool_call p (returns reset cleanup id) = return_container reset cleanup id p
pool_call p (checks_health inspect) = health_check inspect p
pool_call p (marks_failed id) = mark_container_as_failed id p
pool_call p closes = (close p).0

unfoldable pub pool_calls : ContainerPool → List PoolCall → ContainerPool
unfolding pool_call
pool_calls p [] = p
pool_calls p (c ∷ cs) = pool_calls (pool_call p c) cs
