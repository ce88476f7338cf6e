-- ===== src/ContainerPool/Pool.antt =====
-- pkg/dockerexecutor/container/pool.go: the state of a pool and the helpers of its operations. A
-- container is its id, a number; Docker answers by arguments.
use triggerx_backend.Prelude.{
  ℕ, suc, Bool, true, false, List, [], ◌∷◌, ◌++◌, length, ltb, if◌then◌else◌, ite, ℕ_discrete,
}
use triggerx_backend.Prelude.Maps.{remove}

pub data ContainerStatus : Type 0 where
  pending running stopped ready failing : ContainerStatus

pub record PoolStats : Type 0 where
  pub total_containers : ℕ
  pub ready_containers : ℕ
  pub busy_containers : ℕ
  pub error_containers : ℕ

-- The status belongs to a container, also to one that is only in the queue or in use; the queue and
-- the semaphore hold at most as many as there may be containers.
pub record ContainerPool : Type 0 where
  pub containers : List ℕ
  pub status : ℕ → ContainerStatus
  pub ready_queue : List ℕ
  pub wait_queue : ℕ
  pub creation_semaphore : ℕ
  pub max_containers : ℕ
  pub min_containers : ℕ
  pub created_count : ℕ
  -- The channel `stopHealth` is closed.
  pub health_stopped : Bool
  pub stats : PoolStats

abbrev pub is_ready : ContainerStatus → Bool
is_ready ready = true
is_ready pending = false
is_ready running = false
is_ready stopped = false
is_ready failing = false

abbrev pub is_running : ContainerStatus → Bool
is_running running = true
is_running pending = false
is_running ready = false
is_running stopped = false
is_running failing = false

abbrev pub is_failing : ContainerStatus → Bool
is_failing failing = true
is_failing pending = false
is_failing ready = false
is_failing stopped = false
is_failing running = false

abbrev pub count_of : (ℕ → Bool) → List ℕ → ℕ
count_of p [] = 0
count_of p (id ∷ ids) = if p id then suc (count_of p ids) else count_of p ids

abbrev pub update_stats : ContainerPool → ContainerPool
update_stats p = record p {
  stats = record {
    total_containers = length p.containers;
    ready_containers = count_of (λ id. is_ready (p.status id)) p.containers;
    busy_containers = count_of (λ id. is_running (p.status id)) p.containers;
    error_containers = count_of (λ id. is_failing (p.status id)) p.containers;
  };
}

abbrev pub set_status : ℕ → ContainerStatus → ContainerPool → ContainerPool
set_status id s p = record p { status = λ j. ite (ℕ_discrete id j) s (p.status j) }

-- `select { case p.readyQueue <- container: default: }`
abbrev pub enqueue : ℕ → ContainerPool → ContainerPool
enqueue id p = record p {
  ready_queue =
      if ltb (length p.ready_queue) p.max_containers
      then p.ready_queue ++ (id ∷ [])
      else p.ready_queue;
}

-- A token back to the semaphore, unless it is full.
abbrev pub release_token : ContainerPool → ContainerPool
release_token p = record p {
  creation_semaphore =
      if ltb p.creation_semaphore p.max_containers
      then suc p.creation_semaphore
      else p.creation_semaphore;
}

abbrev pub drop_container : ℕ → ContainerPool → ContainerPool
drop_container id p = record p { containers = remove ℕ_discrete id p.containers }

-- The pool of a configuration: every token is there.
abbrev pub new_container_pool : ℕ → ℕ → ContainerPool
new_container_pool min max = record {
  containers = [];
  status = λ id. pending;
  ready_queue = [];
  wait_queue = 0;
  creation_semaphore = max;
  max_containers = max;
  min_containers = min;
  created_count = 0;
  health_stopped = false;
  stats = record {
    total_containers = 0;
    ready_containers = 0;
    busy_containers = 0;
    error_containers = 0;
  };
}
