-- ===== src/Health/State.antt =====
-- internal/health/keeper (state_manager.go, update.go, cleanup.go, persistence.go): the keepers that
-- the health service knows. A database call is given by its results; what the service writes is a
-- list of addresses with their new status, the last first. Times are seconds.
use triggerx_backend.Prelude.{
  ℕ, zero, suc, ◌+◌, String, Bool, true, false, ◌&&◌, Option, none, some, List, [], ◌∷◌, length,
  ltb, String-discrete, if◌then◌else◌,
}
use triggerx_backend.Prelude.Maps.{get, put}
use triggerx_backend.Prelude.Results.{Result, ok, err}

pub record KeeperInfo : Type 0 where
  pub keeper_name : String
  pub keeper_address : String
  pub consensus_address : String
  pub operator_id : String
  pub version : String
  pub peer_id : String
  pub is_active : Bool
  pub last_checked_in : ℕ
  pub is_imua : Bool

abbrev pub Keepers : Type 0
Keepers = List (String × KeeperInfo)

pub record StateManager : Type 0 where
  pub keepers : Keepers
  pub written : List (String × Bool)

pub data HealthError : Type 0 where
  keeper_not_verified update_failed load_failed : HealthError

abbrev pub inactivity_threshold : ℕ
inactivity_threshold = 70

-- Whether one of the attempts succeeds; the stream holds their results.
unfoldable pub retry_with_backoff : (ℕ → Bool) → ℕ → ℕ → Bool
retry_with_backoff attempt i zero = false
retry_with_backoff attempt i (suc left) =
    let rest = retry_with_backoff attempt (suc i) left in if attempt i then true else rest

unfoldable pub is_keeper_active : StateManager → String → Bool
is_keeper_active sm a = elim (get String-discrete a sm.keepers) [
  | none ↦ false
  | some k ↦ k.is_active
]

abbrev pub and_active : Bool → String → List String → List String
and_active true a active = a ∷ active
and_active false a active = active

abbrev pub active_of : Keepers → List String
active_of [] = []
active_of ((a, k) ∷ rest) = and_active k.is_active a (active_of rest)

unfoldable pub get_all_active_keepers : StateManager → List String
get_all_active_keepers sm = active_of sm.keepers

abbrev pub count_active : Keepers → ℕ
count_active [] = 0
count_active ((a, k) ∷ rest) = if k.is_active then suc (count_active rest) else count_active rest

unfoldable pub get_keeper_count : StateManager → ℕ × ℕ
get_keeper_count sm = (length sm.keepers, count_active sm.keepers)

pub record CheckIn : Type 0 where
  pub keeper_address : String
  pub version : String
  pub peer_id : String
  pub is_imua : Bool

abbrev pub checked_in : CheckIn → ℕ → KeeperInfo → KeeperInfo
checked_in c now k = record k {
  version = c.version;
  peer_id = c.peer_id;
  last_checked_in = now;
  is_active = true;
  is_imua = c.is_imua;
}

-- The write of a status, if the database takes it.
abbrev pub store_status : Bool → String → Bool → List (String × Bool) → List (String × Bool)
store_status true a s written = (a, s) ∷ written
store_status false a s written = written

abbrev pub update_result : Bool → Result HealthError (Unit {0})
update_result true = ok tt
update_result false = err update_failed

unfoldable pub update_keeper_health :
    StateManager → CheckIn → ℕ → (ℕ → Bool) → StateManager × Result HealthError (Unit {0})
unfolding retry_with_backoff
update_keeper_health sm c now attempt = elim (get String-discrete c.keeper_address sm.keepers) [
  | none ↦ (sm, err keeper_not_verified)
  | some k ↦
      let stored = retry_with_backoff attempt 0 3 in
      (
        record {
          keepers = put String-discrete c.keeper_address (checked_in c now k) sm.keepers;
          written = store_status stored c.keeper_address true sm.written;
        },
        update_result stored,
      )
]

-- `state.IsActive && now.Sub(state.LastCheckedIn) > inactivityThreshold`
abbrev pub lapsed : ℕ → KeeperInfo → Bool
lapsed now k = k.is_active && ltb (k.last_checked_in + inactivity_threshold) now

abbrev pub after_check : ℕ → KeeperInfo → KeeperInfo
after_check now k = record k { is_active = if lapsed now k then false else k.is_active }

abbrev pub checked : ℕ → Keepers → Keepers
checked now [] = []
checked now ((a, k) ∷ rest) = (a, after_check now k) ∷ checked now rest

-- The writes for the lapsed keepers; the function says which the database takes.
abbrev pub write_lapsed :
    (String → Bool) → ℕ → Keepers → List (String × Bool) → List (String × Bool)
write_lapsed takes now [] written = written
write_lapsed takes now ((a, k) ∷ rest) written =
    write_lapsed takes now rest (store_status (lapsed now k && takes a) a false written)

unfoldable pub check_inactive_keepers : StateManager → ℕ → (String → Bool) → StateManager
check_inactive_keepers sm now takes = record {
  keepers = checked now sm.keepers;
  written = write_lapsed takes now sm.keepers sm.written;
}

abbrev pub load_all : List KeeperInfo → Keepers → Keepers
load_all [] keepers = keepers
load_all (k ∷ ks) keepers =
    load_all ks (put String-discrete k.keeper_address (record k { is_active = false }) keepers)

unfoldable pub load_verified_keepers :
    StateManager → Option (List KeeperInfo) → StateManager × Result HealthError (Unit {0})
load_verified_keepers sm none = (sm, err load_failed)
load_verified_keepers sm (some ks) = (record sm { keepers = load_all ks [] }, ok tt)

-- The writes of `DumpState`; a stream of attempts for each keeper.
abbrev pub write_active :
    (String → ℕ → Bool) → Keepers → List (String × Bool) → List (String × Bool)
unfolding retry_with_backoff
write_active attempts [] written = written
write_active attempts ((a, k) ∷ rest) written =
    write_active attempts rest
      (store_status (k.is_active && retry_with_backoff (attempts a) 0 3) a false written)

unfoldable pub dump_state : StateManager → (String → ℕ → Bool) → StateManager
dump_state sm attempts = record sm { written = write_active attempts sm.keepers sm.written }

-- A call on a loaded manager.
pub data HealthCall : Type 0 where
  checks_in : CheckIn → ℕ → (ℕ → Bool) → HealthCall
  cleans : ℕ → (String → Bool) → HealthCall
  dumps : (String → ℕ → Bool) → HealthCall

unfoldable pub call : StateManager → HealthCall → StateManager
unfolding update_keeper_health check_inactive_keepers dump_state
call sm (checks_in c now attempt) = (update_keeper_health sm c now attempt).0
call sm (cleans now takes) = check_inactive_keepers sm now takes
call sm (dumps attempts) = dump_state sm attempts

unfoldable pub calls : StateManager → List HealthCall → StateManager
unfolding call
calls sm [] = sm
calls sm (c ∷ cs) = calls (call sm c) cs
