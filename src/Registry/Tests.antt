-- ===== src/Registry/Tests.antt =====
-- A registry with one request, and the calls on it.
use triggerx_backend.Prelude.{ℕ, ◌≡◌, refl, none, some, [], ◌∷◌, ℕ_discrete, length}
use triggerx_backend.Prelude.Maps.{get, put, delete}
use triggerx_backend.Prelude.Texts.{Text, text, Text-discrete}
use triggerx_backend.Registry.Manager.{
  MonitoringRequest, RegistryManager, subscriber_of, register, unregister, cleanup_expired,
  new_registry_manager, registers, cleans_up, run, step, generate_registry_key, to_lower,
}
use triggerx_backend.Registry.Subscriptions.{
  subscription, register-subscription, Unregistered, unregister-Unregistered,
  cleanup_expired-subscription,
}
use triggerx_backend.Registry.Invariant.{AllMonitored, run-new_registry_manager}

abbrev request : MonitoringRequest
request = record {
  request_id = text "r1";
  chain_id = text "1";
  contract_addr = text "0xAB";
  event_sig = text "T()";
  webhook_url = text "u";
  expires_at = 50;
  filter_param = [];
  filter_value = [];
}

abbrev parsed : Text → ℕ
parsed a = length a

registered : RegistryManager
unfolding new_registry_manager
registered = run parsed parsed new_registry_manager (registers request ∷ [])

program : Unit {0}
unfolding registered run step register ℕ_discrete get put delete Text-discrete generate_registry_key
    to_lower subscription
program = tt

register-subscription_example :
    subscription registered.registry (text "1:0xab:T()") (text "r1") ≡ some (subscriber_of request)
unfolding program
register-subscription_example =
    register-subscription parsed parsed new_registry_manager registered request (text "1:0xab:T()")
      (text "r1") refl

unregister-Unregistered_example :
    Unregistered registered (text "r1") (unregister registered (text "r1"))
unfolding program
unregister-Unregistered_example = unregister-Unregistered registered (text "r1") (refl, tt)

cleanup_expired-subscription_example :
    subscription (cleanup_expired registered 60).registry (text "1:0xab:T()") (text "r1") ≡ none
unfolding program
cleanup_expired-subscription_example =
    cleanup_expired-subscription registered 60 (text "1:0xab:T()") (text "r1")
      (refl, (refl, tt), tt)

run-new_registry_manager_example :
    AllMonitored
      (run parsed parsed new_registry_manager (registers request ∷ cleans_up 10 ∷ [])).registry
run-new_registry_manager_example =
    run-new_registry_manager parsed parsed (registers request ∷ cleans_up 10 ∷ [])
