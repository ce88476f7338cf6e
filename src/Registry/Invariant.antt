-- ===== src/Registry/Invariant.antt =====
-- No entry without a subscriber.
use triggerx_backend.Prelude.{
  ℕ, ◌≡◌, refl, ◌≢◌, none, some, List, [], ◌∷◌, arith, ◌==◌, Option-cases, some-eq, inl, inr, sym,
  ◌∙◌, Bool-cases, if_pos, if_neg,
}
use triggerx_backend.Prelude.Maps.{
  get, put, delete, get-put, get-delete, Distinct, put-Distinct, delete-Distinct,
}
use triggerx_backend.Prelude.Texts.{Text, Text-discrete}
use triggerx_backend.Registry.Manager.{
  MonitoringRequest, Subscriber, Subscribers, RegistryEntry, Entries, RegistryManager, request_key,
  subscriber_of, entry_for, register, find_entry, settle, unregister, unexpired, cleaned,
  cleanup_entries, cleanup_expired, after, Call, registers, unregisters, cleans_up, step, run,
  new_registry_manager,
}
use triggerx_backend.Registry.Subscriptions.{AllDistinct, find_entry_found, cleanup_entries-none}

-- What holds of each entry.
abbrev pub IsMonitored : Text → RegistryEntry → Type 0
IsMonitored k e = (e.key ≡ k) × (e.subscribers ≢ []) × Distinct Text-discrete e.subscribers

abbrev pub AllMonitored : Entries → Type 0
AllMonitored [] = Unit
AllMonitored ((k, e) ∷ rest) =
    (get Text-discrete k rest ≡ none) × IsMonitored k e × AllMonitored rest

put-ne-nil : (k : Text) (s : Subscriber) (ss : Subscribers) → put Text-discrete k s ss ≢ []
unfolding put
put-ne-nil k s [] = λ e. cc
put-ne-nil k s ((j, t) ∷ ss) = ground arith

put-AllMonitored :
    (k : Text) (e : RegistryEntry) (es : Entries)
    → IsMonitored k e
    → AllMonitored es
    → AllMonitored (put Text-discrete k e es)
unfolding put
put-AllMonitored k e [] v m = (unfold get in refl, v, tt)
put-AllMonitored k e ((j, d) ∷ es) v m = elim (Text-discrete j k) [
  | yes p ↦ rw (if_pos _ p) (rw p at m.0, v, m.2)
  | no p ↦ rw (if_neg _ p) (
    get-put Text-discrete k j e es ∙ if_neg (Text-discrete k j) (λ q. p (sym q)) _ _ ∙ m.0,
    m.1,
    put-AllMonitored k e es v m.2,
  )
]

delete-AllMonitored :
    (k : Text) (es : Entries) → AllMonitored es → AllMonitored (delete Text-discrete k es)
unfolding delete
delete-AllMonitored k [] m = tt
delete-AllMonitored k ((j, d) ∷ es) m = elim (Text-discrete j k) [
  | yes p ↦ rw (if_pos _ p) (delete-AllMonitored k es m.2)
  | no p ↦ rw (if_neg _ p) (
    get-delete Text-discrete k j es ∙ if_neg (Text-discrete k j) (λ q. p (sym q)) _ _ ∙ m.0,
    m.1,
    delete-AllMonitored k es m.2,
  )
]

get-AllMonitored :
    (k : Text) (es : Entries) (e : RegistryEntry)
    → AllMonitored es
    → get Text-discrete k es ≡ some e
    → IsMonitored k e
unfolding get
get-AllMonitored k [] e m h = cc
get-AllMonitored k ((j, d) ∷ es) e m h = elim (Text-discrete j k) [
  | yes p ↦ rw (← some-eq (sym (if_pos (Text-discrete j k) p _ _) ∙ h), ← p) m.1
  | no p ↦ get-AllMonitored k es e m.2 (sym (if_neg (Text-discrete j k) p _ _) ∙ h)
]

AllMonitored-AllDistinct : (es : Entries) → AllMonitored es → AllDistinct es
AllMonitored-AllDistinct [] m = tt
AllMonitored-AllDistinct ((k, e) ∷ es) m = (m.0, m.1.2, AllMonitored-AllDistinct es m.2)

pub AllMonitored-Distinct : (es : Entries) → AllMonitored es → Distinct Text-discrete es
AllMonitored-Distinct [] m = tt
AllMonitored-Distinct ((k, e) ∷ es) m = (m.0, AllMonitored-Distinct es m.2)

module _ (hex_to_address keccak256 : Text → ℕ) where
  entry_for-key :
      (r : MonitoringRequest) (es : Entries)
      → AllMonitored es
      → let e = entry_for hex_to_address keccak256 r es in
        (e.key ≡ request_key r) × Distinct Text-discrete e.subscribers
  entry_for-key r es m = elim (Option-cases (get Text-discrete (request_key r) es)) [
    | inl h ↦ rw (h, entry_for) (refl, tt)
    | inr (e, h) ↦ let v = get-AllMonitored (request_key r) es e m h in rw (h, entry_for) (v.0, v.2)
  ]

  register-AllMonitored :
      (rm : RegistryManager) (r : MonitoringRequest)
      → AllMonitored rm.registry
      → AllMonitored (after rm (register hex_to_address keccak256 rm r)).registry
  unfolding register
  register-AllMonitored rm r m = elim (Bool-cases (hex_to_address r.contract_addr == 0)) [
    | inl bad ↦ rw (bad, register) m
    | inr good ↦
        let v = entry_for-key r rm.registry m in
        rw (good, register)
          (put-AllMonitored (request_key r) _ rm.registry
            (
              v.0,
              put-ne-nil r.request_id (subscriber_of r) _,
              put-Distinct Text-discrete r.request_id (subscriber_of r) _ v.1,
            )
            m)
  ]

settle-AllMonitored :
    (rm : RegistryManager) (k : Text) (e : RegistryEntry) (ss : Subscribers)
    → AllMonitored rm.registry
    → e.key ≡ k
    → Distinct Text-discrete ss
    → AllMonitored (settle rm k e ss).registry
settle-AllMonitored rm k e [] m h d = delete-AllMonitored k rm.registry m
settle-AllMonitored rm k e (s ∷ ss) m h d = put-AllMonitored k _ rm.registry (h, (λ x. cc), d) m

unregister-AllMonitored :
    (rm : RegistryManager) (id : Text)
    → AllMonitored rm.registry
    → AllMonitored (after rm (unregister rm id)).registry
unfolding unregister
unregister-AllMonitored rm id m = elim (Option-cases (find_entry id rm.registry)) [
  | inl e ↦ rw (e, unregister) m
  | inr (ke, e) ↦
      let d = AllMonitored-Distinct rm.registry m in
      let found = find_entry_found id rm.registry ke.0 ke.1 d e in
      let v = get-AllMonitored ke.0 rm.registry ke.1 m found.0 in
      rw (e, unregister)
        (settle-AllMonitored rm ke.0 ke.1 (delete Text-discrete id ke.1.subscribers) m v.0
          (delete-Distinct Text-discrete id ke.1.subscribers v.2))
]

unexpired-none :
    (now : ℕ) (id : Text) (ss : Subscribers)
    → get Text-discrete id ss ≡ none
    → get Text-discrete id (unexpired now ss) ≡ none
unfolding unexpired get
unexpired-none now id [] h = refl
unexpired-none now id ((j, s) ∷ ss) h = ground (arith, unexpired-none now id ss)

unexpired-Distinct :
    (now : ℕ) (ss : Subscribers)
    → Distinct Text-discrete ss
    → Distinct Text-discrete (unexpired now ss)
unfolding unexpired
unexpired-Distinct now [] d = tt
unexpired-Distinct now ((j, s) ∷ ss) d =
    ground (arith, unexpired-none now j ss d.0, unexpired-Distinct now ss d.1)

cleaned-AllMonitored :
    (k : Text) (e : RegistryEntry) (ss : Subscribers) (rm : RegistryManager)
    → AllMonitored rm.registry
    → get Text-discrete k rm.registry ≡ none
    → e.key ≡ k
    → Distinct Text-discrete ss
    → AllMonitored (cleaned k e ss rm).registry
cleaned-AllMonitored k e [] rm m n h d = m
cleaned-AllMonitored k e (s ∷ ss) rm m n h d = (n, (h, (λ x. cc), d), m)

cleanup_entries-AllMonitored :
    (now : ℕ) (es : Entries) (c : List Text)
    → AllMonitored es
    → AllMonitored (cleanup_entries now es c).registry
unfolding cleanup_entries
cleanup_entries-AllMonitored now [] c m = tt
cleanup_entries-AllMonitored now ((k, e) ∷ es) c m =
    cleaned-AllMonitored k e (unexpired now e.subscribers) (cleanup_entries now es c)
      (cleanup_entries-AllMonitored now es c m.2) (cleanup_entries-none now es c k m.0) m.1.0
      (unexpired-Distinct now e.subscribers m.1.2)

module _ (hex_to_address keccak256 : Text → ℕ) where
  pub step-AllMonitored :
      (rm : RegistryManager) (c : Call)
      → AllMonitored rm.registry
      → AllMonitored (step hex_to_address keccak256 rm c).registry
  unfolding step cleanup_expired
  step-AllMonitored rm (registers r) m = register-AllMonitored hex_to_address keccak256 rm r m
  step-AllMonitored rm (unregisters id) m = unregister-AllMonitored rm id m
  step-AllMonitored rm (cleans_up now) m =
      cleanup_entries-AllMonitored now rm.registry rm.cancelled m

  run-AllMonitored :
      (rm : RegistryManager) (cs : List Call)
      → AllMonitored rm.registry
      → AllMonitored (run hex_to_address keccak256 rm cs).registry
  unfolding run
  run-AllMonitored rm [] m = m
  run-AllMonitored rm (c ∷ cs) m =
      run-AllMonitored (step hex_to_address keccak256 rm c) cs (step-AllMonitored rm c m)

  -- After any sequence of calls on a new manager, every entry stands once, under its own key, and
  -- has at least one subscriber, none of them twice.
  pub run-new_registry_manager :
      (cs : List Call)
      → AllMonitored (run hex_to_address keccak256 new_registry_manager cs).registry
  unfolding new_registry_manager
  run-new_registry_manager cs = run-AllMonitored new_registry_manager cs tt
