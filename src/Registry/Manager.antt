-- ===== src/Registry/Manager.antt =====
-- internal/eventmonitor/registry/registry.go, with the types of internal/eventmonitor/types. A time
-- is a number of nanoseconds. The maps are association lists, and `range` goes in the list's order.
-- The manager's mutex makes each method one step. `HexToAddress` and `Keccak256Hash` are
-- go-ethereum's, and are parameters; an address and a hash are numbers, the zero address is 0.
use triggerx_backend.Prelude.{
  ℕ, Option, none, some, List, [], ◌∷◌, ◌++◌, length, ltb, leb, ◌==◌, ◌+◌, ◌&&◌, if◌then◌else◌,
}
use triggerx_backend.Prelude.Maps.{get, put, delete, insert}
use triggerx_backend.Prelude.Results.{Result, ok, err, panic}
use triggerx_backend.Prelude.Texts.{Text, text, Text-discrete}

pub record MonitoringRequest : Type 0 where
  pub request_id : Text
  pub chain_id : Text
  pub contract_addr : Text
  pub event_sig : Text
  pub webhook_url : Text
  pub expires_at : ℕ
  pub filter_param : Text
  pub filter_value : Text

pub record Subscriber : Type 0 where
  pub request_id : Text
  pub webhook_url : Text
  pub expires_at : ℕ
  pub filter_param : Text
  pub filter_value : Text

abbrev pub Subscribers : Type 0
Subscribers = List (Text × Subscriber)

pub record RegistryEntry : Type 0 where
  pub key : Text
  pub chain_id : Text
  pub contract_addr : ℕ
  pub event_sig : ℕ
  pub subscribers : Subscribers
  pub last_block : ℕ

abbrev pub Entries : Type 0
Entries = List (Text × RegistryEntry)

-- The registry, and the keys of the workers that were cancelled, latest first.
pub record RegistryManager : Type 0 where
  pub registry : Entries
  pub cancelled : List Text

pub data Error : Type 0 where
  invalid_contract_address request_id_not_found : Error

-- `strings.ToLower` of an ASCII text.
unfoldable pub to_lower : Text → Text
to_lower [] = []
to_lower (c ∷ s) = (if leb b'A' c && leb c b'Z' then c + 32 else c) ∷ to_lower s

unfoldable pub generate_registry_key : Text → Text → Text → Text
generate_registry_key chain_id contract_addr event_sig =
    chain_id ++ (text ":" ++ (to_lower contract_addr ++ (text ":" ++ event_sig)))

abbrev pub request_key : MonitoringRequest → Text
request_key r = generate_registry_key r.chain_id r.contract_addr r.event_sig

abbrev pub subscriber_of : MonitoringRequest → Subscriber
subscriber_of r = record {
  request_id = r.request_id;
  webhook_url = r.webhook_url;
  expires_at = r.expires_at;
  filter_param = r.filter_param;
  filter_value = r.filter_value;
}

module _ (hex_to_address keccak256 : Text → ℕ) where
  abbrev pub new_entry : MonitoringRequest → RegistryEntry
  new_entry r = record {
    key = request_key r;
    chain_id = r.chain_id;
    contract_addr = hex_to_address r.contract_addr;
    event_sig = keccak256 r.event_sig;
    subscribers = [];
    last_block = 0;
  }

  abbrev pub entry_for : MonitoringRequest → Entries → RegistryEntry
  entry_for r entries = elim (get Text-discrete (request_key r) entries) [
    | none ↦ new_entry r
    | some e ↦ e
  ]

  abbrev pub subscribed : MonitoringRequest → RegistryEntry → RegistryEntry
  subscribed r e = record e {
    subscribers = put Text-discrete r.request_id (subscriber_of r) e.subscribers;
  }

  unfoldable pub register : RegistryManager → MonitoringRequest → Result Error RegistryManager
  register rm r =
      if hex_to_address r.contract_addr == 0
      then err invalid_contract_address
      else ok (record rm {
        registry =
            put Text-discrete (request_key r) (subscribed r (entry_for r rm.registry)) rm.registry;
      })

-- The first entry with a subscriber of the request, and its key.
unfoldable pub find_entry : Text → Entries → Option (Text × RegistryEntry)
find_entry id [] = none
find_entry id ((k, e) ∷ rest) =
    let later = find_entry id rest in
    elim (get Text-discrete id e.subscribers) [ none ↦ later | some s ↦ some (k, e) ]

-- An entry that lost subscribers: its worker is cancelled and it is deleted where none is left.
abbrev pub settle : RegistryManager → Text → RegistryEntry → Subscribers → RegistryManager
settle rm k e [] = record {
  registry = delete Text-discrete k rm.registry;
  cancelled = k ∷ rm.cancelled;
}
settle rm k e (s ∷ ss) = record rm {
  registry = put Text-discrete k (record e { subscribers = s ∷ ss }) rm.registry;
}

unfoldable pub unregister : RegistryManager → Text → Result Error RegistryManager
unregister rm id = elim (find_entry id rm.registry) [
  | none ↦ err request_id_not_found
  | some (k, e) ↦ ok (settle rm k e (delete Text-discrete id e.subscribers))
]

unfoldable pub get_entry : RegistryManager → Text → Option RegistryEntry
get_entry rm k = get Text-discrete k rm.registry

unfoldable pub get_entry_by_request_id : RegistryManager → Text → Option (Text × RegistryEntry)
unfolding find_entry
get_entry_by_request_id rm id = find_entry id rm.registry

unfoldable pub get_active_monitor_count : RegistryManager → ℕ
get_active_monitor_count rm = length rm.registry

-- The keys of the map `chainMap`.
unfoldable pub get_chains_supported : Entries → List Text
get_chains_supported [] = []
get_chains_supported ((k, e) ∷ rest) = insert_text e.chain_id (get_chains_supported rest)
  where
    insert_text : Text → List Text → List Text
    insert_text = insert Text-discrete

-- The subscribers that a clean-up at `now` keeps.
unfoldable pub unexpired : ℕ → Subscribers → Subscribers
unexpired now [] = []
unexpired now ((id, s) ∷ rest) =
    let later = unexpired now rest in if ltb s.expires_at now then later else (id, s) ∷ later

abbrev pub cleaned : Text → RegistryEntry → Subscribers → RegistryManager → RegistryManager
cleaned k e [] rm = record rm { cancelled = k ∷ rm.cancelled }
cleaned k e (s ∷ ss) rm = record rm {
  registry = (k, record e { subscribers = s ∷ ss }) ∷ rm.registry;
}

-- One round of the clean-up: the entries, from the last, with the cancelled workers.
unfoldable pub cleanup_entries : ℕ → Entries → List Text → RegistryManager
cleanup_entries now [] cancelled = record { registry = []; cancelled = cancelled }
cleanup_entries now ((k, e) ∷ rest) cancelled =
    cleaned k e (unexpired now e.subscribers) (cleanup_entries now rest cancelled)

unfoldable pub cleanup_expired : RegistryManager → ℕ → RegistryManager
unfolding cleanup_entries
cleanup_expired rm now = cleanup_entries now rm.registry rm.cancelled

-- `NewRegistryManager`.
unfoldable pub new_registry_manager : RegistryManager
new_registry_manager = record { registry = []; cancelled = [] }

-- A refused call leaves the manager as it was.
abbrev pub after : RegistryManager → Result Error RegistryManager → RegistryManager
after rm (ok rm') = rm'
after rm (err e) = rm
after rm panic = rm

-- The calls that change the registry; a clean-up is that of one tick of its ticker.
pub data Call : Type 0 where
  registers : MonitoringRequest → Call
  unregisters : Text → Call
  cleans_up : ℕ → Call

module _ (hex_to_address keccak256 : Text → ℕ) where
  unfoldable pub step : RegistryManager → Call → RegistryManager
  step rm (registers r) = after rm (register hex_to_address keccak256 rm r)
  step rm (unregisters id) = after rm (unregister rm id)
  step rm (cleans_up now) = cleanup_expired rm now

  unfoldable pub run : RegistryManager → List Call → RegistryManager
  run rm [] = rm
  run rm (c ∷ cs) = run (step rm c) cs
