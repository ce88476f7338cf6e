-- ===== src/Registry/Subscriptions.antt =====
-- The registry as a finite map from an entry's key and a request's id to the subscriber, and each
-- operation as an update of that map.
use triggerx_backend.Prelude.{
  ℕ, ◌≡◌, refl, ◌≢◌, Option, none, some, List, [], ◌∷◌, arith, ltb, if◌then◌else◌, ite,
  Option-cases, inl, inr, ◌∙◌,
}
use triggerx_backend.Prelude.Maps.{get, delete, get-put, get-delete, Distinct}
use triggerx_backend.Prelude.Results.{Result, ok, err}
use triggerx_backend.Prelude.Texts.{Text, Text-discrete}
use triggerx_backend.Registry.Manager.{
  MonitoringRequest, Subscriber, Subscribers, RegistryEntry, Entries, RegistryManager, Error,
  request_id_not_found, request_key, subscriber_of, entry_for, subscribed, register, find_entry,
  settle, unregister, unexpired, cleaned, cleanup_entries, cleanup_expired,
}

-- The subscriber of a request under a key.
unfoldable pub subscription : Entries → Text → Text → Option Subscriber
subscription entries k id = elim (get Text-discrete k entries) [
  | none ↦ none
  | some e ↦ get Text-discrete id e.subscribers
]

module _ (hex_to_address keccak256 : Text → ℕ) where
  entry_for-subscription :
      (r : MonitoringRequest) (id : Text) (entries : Entries)
      → get Text-discrete id (entry_for hex_to_address keccak256 r entries).subscribers
        ≡ subscription entries (request_key r) id
  unfolding subscription get
  entry_for-subscription r id entries = ground arith

  -- An accepted request is subscribed under its key, and every other subscription stays.
  pub register-subscription :
      (rm rm' : RegistryManager) (r : MonitoringRequest) (k id : Text)
      → register hex_to_address keccak256 rm r ≡ ok rm'
      → subscription rm'.registry k id
        ≡ ite
            (Text-discrete (request_key r) k)
            (ite
              (Text-discrete r.request_id id)
              (some (subscriber_of r))
              (subscription rm.registry k id))
            (subscription rm.registry k id)
  unfolding register subscription
  register-subscription rm rm' r k id h = ground (
    arith,
    entry_for-subscription r id rm.registry,
    get-put Text-discrete (request_key r) k
        (subscribed hex_to_address keccak256 r (entry_for hex_to_address keccak256 r rm.registry))
        rm.registry,
    get-put Text-discrete r.request_id id (subscriber_of r)
        (entry_for hex_to_address keccak256 r rm.registry).subscribers,
  )

pub find_entry_found :
    (id : Text) (entries : Entries) (k : Text) (e : RegistryEntry)
    → Distinct Text-discrete entries
    → find_entry id entries ≡ some (k, e)
    → (get Text-discrete k entries ≡ some e) × (get Text-discrete id e.subscribers ≢ none)
unfolding find_entry get
find_entry_found id [] k e n h = cc
find_entry_found id ((j, d) ∷ rest) k e n h = ground (arith, find_entry_found id rest k e n.1)

-- A request is not found exactly when it is subscribed under no key.
pub find_entry-none :
    (id : Text) (entries : Entries) (k : Text)
    → find_entry id entries ≡ none
    → subscription entries k id ≡ none
unfolding find_entry subscription get
find_entry-none id [] k h = refl
find_entry-none id ((j, d) ∷ rest) k h = ground (arith, find_entry-none id rest k)

settle-subscription :
    (rm : RegistryManager) (k : Text) (e : RegistryEntry) (ss : Subscribers) (j id : Text)
    → subscription (settle rm k e ss).registry j id
      ≡ ite (Text-discrete k j) (get Text-discrete id ss) (subscription rm.registry j id)
unfolding subscription get
settle-subscription rm k e [] j id = ground (arith, get-delete Text-discrete k j rm.registry)
settle-subscription rm k e (s ∷ ss) j id =
    ground (arith, get-put Text-discrete k j (record e { subscribers = s ∷ ss }) rm.registry)

-- What an `Unregister` may come to.
pub data Unregistered (rm : RegistryManager) (id : Text)
    : Result Error RegistryManager → Type 0 where
  missing :
      ((k : Text) → subscription rm.registry k id ≡ none)
      → Unregistered rm id (err request_id_not_found)
  removed :
      (rm' : RegistryManager) (k : Text)
      → subscription rm.registry k id ≢ none
      → ((j i : Text)
          → subscription rm'.registry j i
            ≡ ite
                (Text-discrete k j)
                (ite (Text-discrete id i) none (subscription rm.registry j i))
                (subscription rm.registry j i))
      → Unregistered rm id (ok rm')

subscription_at :
    (entries : Entries) (k i : Text) {e : RegistryEntry}
    → get Text-discrete k entries ≡ some e
    → subscription entries k i ≡ get Text-discrete i e.subscribers
unfolding subscription
subscription_at entries k i h = rw (h, subscription) refl

removed-subscription :
    (rm : RegistryManager) (k id : Text) (e : RegistryEntry)
    → get Text-discrete k rm.registry ≡ some e
    → (j i : Text)
    → subscription (settle rm k e (delete Text-discrete id e.subscribers)).registry j i
      ≡ ite
          (Text-discrete k j)
          (ite (Text-discrete id i) none (subscription rm.registry j i))
          (subscription rm.registry j i)
removed-subscription rm k id e h j i = elim (Text-discrete k j) [
  | yes p ↦ ground (
    arith,
    settle-subscription rm k e (delete Text-discrete id e.subscribers) j i,
    get-delete Text-discrete id i e.subscribers,
    subscription_at rm.registry k i h,
  )
  | no p ↦ ground (arith, settle-subscription rm k e (delete Text-discrete id e.subscribers) j i)
]

-- `Unregister` of a request that is subscribed somewhere takes it out under one key, where it was
-- subscribed, and changes no other subscription; where it is subscribed nowhere it is refused.
pub unregister-Unregistered :
    (rm : RegistryManager) (id : Text)
    → Distinct Text-discrete rm.registry
    → Unregistered rm id (unregister rm id)
unfolding unregister
unregister-Unregistered rm id n = elim (Option-cases (find_entry id rm.registry)) [
  | inl e ↦ rw (e, unregister) (missing (λ k. find_entry-none id rm.registry k e))
  | inr (ke, e) ↦
      let found = find_entry_found id rm.registry ke.0 ke.1 n e in
      rw (e, unregister)
        (removed _ ke.0 (unfold subscription in rw (found.0, subscription) found.1)
          (removed-subscription rm ke.0 id ke.1 found.0))
]

-- The map after a clean-up: what has not expired.
abbrev pub live : ℕ → Option Subscriber → Option Subscriber
live now none = none
live now (some s) = if ltb s.expires_at now then none else some s

unexpired-get :
    (now : ℕ) (id : Text) (ss : Subscribers)
    → Distinct Text-discrete ss
    → get Text-discrete id (unexpired now ss) ≡ live now (get Text-discrete id ss)
unfolding unexpired get
unexpired-get now id [] n = refl
unexpired-get now id ((j, s) ∷ ss) n = ground (arith, unexpired-get now id ss n.1)

subscription-cons :
    (k : Text) (e : RegistryEntry) (rest : Entries) (j id : Text)
    → subscription ((k, e) ∷ rest) j id
      ≡ ite (Text-discrete k j) (get Text-discrete id e.subscribers) (subscription rest j id)
unfolding subscription get
subscription-cons k e rest j id = ground arith

cleaned-subscription :
    (k : Text) (e : RegistryEntry) (ss : Subscribers) (rm : RegistryManager) (j id : Text)
    → get Text-discrete k rm.registry ≡ none
    → subscription (cleaned k e ss rm).registry j id
      ≡ ite (Text-discrete k j) (get Text-discrete id ss) (subscription rm.registry j id)
unfolding subscription get
cleaned-subscription k e [] rm j id n = ground arith
cleaned-subscription k e (s ∷ ss) rm j id n = ground arith

cleaned-get :
    (k : Text) (e : RegistryEntry) (ss : Subscribers) (rm : RegistryManager) (j : Text)
    → k ≢ j
    → get Text-discrete j (cleaned k e ss rm).registry ≡ get Text-discrete j rm.registry
unfolding get
cleaned-get k e [] rm j n = refl
cleaned-get k e (s ∷ ss) rm j n = ground arith

pub cleanup_entries-none :
    (now : ℕ) (entries : Entries) (c : List Text) (j : Text)
    → get Text-discrete j entries ≡ none
    → get Text-discrete j (cleanup_entries now entries c).registry ≡ none
unfolding cleanup_entries get
cleanup_entries-none now [] c j h = refl
cleanup_entries-none now ((k, e) ∷ rest) c j h = elim (Text-discrete k j) [
  | yes p ↦ absurd (ground arith)
  | no p ↦
      cleaned-get k e (unexpired now e.subscribers) (cleanup_entries now rest c) j p
      ∙ cleanup_entries-none now rest c j (ground arith)
]

abbrev pub AllDistinct : Entries → Type 0
AllDistinct [] = Unit
AllDistinct ((k, e) ∷ rest) =
    (get Text-discrete k rest ≡ none) × Distinct Text-discrete e.subscribers × AllDistinct rest

cleanup_entries-subscription :
    (now : ℕ) (entries : Entries) (c : List Text) (j id : Text)
    → AllDistinct entries
    → subscription (cleanup_entries now entries c).registry j id
      ≡ live now (subscription entries j id)
unfolding cleanup_entries
cleanup_entries-subscription now [] c j id n = unfold subscription get in refl
cleanup_entries-subscription now ((k, e) ∷ rest) c j id n = elim (Text-discrete k j) [
  | yes p ↦ ground (
    arith,
    cleaned-subscription k e (unexpired now e.subscribers) (cleanup_entries now rest c) j id
        (cleanup_entries-none now rest c k n.0),
    subscription-cons k e rest j id,
    unexpired-get now id e.subscribers n.1,
  )
  | no p ↦ ground (
    arith,
    cleaned-subscription k e (unexpired now e.subscribers) (cleanup_entries now rest c) j id
        (cleanup_entries-none now rest c k n.0),
    subscription-cons k e rest j id,
    cleanup_entries-subscription now rest c j id n.2,
  )
]

-- A round of the clean-up drops exactly the subscriptions whose time is before `now`, under every
-- key, and keeps the others as they are. (In a Go map no key stands twice.)
pub cleanup_expired-subscription :
    (rm : RegistryManager) (now : ℕ) (j id : Text)
    → AllDistinct rm.registry
    → subscription (cleanup_expired rm now).registry j id ≡ live now (subscription rm.registry j id)
unfolding cleanup_expired
cleanup_expired-subscription rm now j id n =
    cleanup_entries-subscription now rm.registry rm.cancelled j id n
