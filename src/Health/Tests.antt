-- ===== src/Health/Tests.antt =====
-- One verified keeper, which checks in at 100.
use triggerx_backend.Prelude.{◌≡◌, refl, true, false, some, List, [], ◌∷◌, String-discrete}
use triggerx_backend.Prelude.Maps.{get, put}
use triggerx_backend.Prelude.Results.{err}
use triggerx_backend.Health.State.{
  KeeperInfo, StateManager, CheckIn, is_keeper_active, update_keeper_health, check_inactive_keepers,
  load_verified_keepers, HealthCall, checks_in, cleans, dumps, calls, keeper_not_verified,
}
use triggerx_backend.Health.Activity.{is_known, check_inactive-update_keeper_health, calls-is_known}

abbrev keeper : KeeperInfo
keeper = record {
  keeper_name = "k";
  keeper_address = "0xa";
  consensus_address = "0xc";
  operator_id = "1";
  version = "v1";
  peer_id = "p";
  is_active = false;
  last_checked_in = 0;
  is_imua = false;
}

abbrev manager : StateManager
manager = record { keepers = ("0xa", keeper) ∷ []; written = [] }

abbrev check_in : CheckIn
check_in = record { keeper_address = "0xa"; version = "v2"; peer_id = "p"; is_imua = false }

program : Unit {0}
unfolding get put String-discrete load_verified_keepers update_keeper_health
program = tt

loads_inactive :
    (load_verified_keepers
      (record { keepers = []; written = [] })
      (some (record keeper { is_active = true } ∷ []))).0
    ≡ manager
unfolding program
loads_inactive = refl

refuses_unverified :
    (update_keeper_health manager (record check_in { keeper_address = "0xb" }) 100 (λ i. true)).1
    ≡ err keeper_not_verified
unfolding program
refuses_unverified = refl

check_inactive-update_keeper_health_example :
    is_keeper_active
      (check_inactive_keepers
        (update_keeper_health manager check_in 100 (λ i. false)).0
        171
        (λ a. true))
      "0xa"
    ≡ false
unfolding program
check_inactive-update_keeper_health_example =
    check_inactive-update_keeper_health manager check_in keeper 100 171 (λ i. false) (λ a. true)
      refl

abbrev some_calls : List HealthCall
some_calls = checks_in check_in 100 (λ i. true) ∷ cleans 200 (λ a. true) ∷ dumps (λ a i. true) ∷ []

calls-is_known_example : is_known (calls manager some_calls) "0xb" ≡ is_known manager "0xb"
calls-is_known_example = calls-is_known manager some_calls "0xb"
