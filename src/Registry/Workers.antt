-- ===== src/Registry/Workers.antt =====
-- The workers of the entries that were made: each goes on with its entry, or was cancelled once.
use triggerx_backend.Prelude.{ℕ, suc, ◌+◌, ◌-◌, ◌≡◌, Option, none, some, List, [], ◌∷◌, ite}
use triggerx_backend.Prelude.Maps.{get}
use triggerx_backend.Prelude.Texts.{Text, Text-discrete}
use triggerx_backend.Registry.Manager.{RegistryEntry, RegistryManager, Call, step}

-- How often a worker of the key was cancelled.
abbrev pub count : Text → List Text → ℕ
count k [] = 0
count k (j ∷ js) = ite (Text-discrete j k) (suc (count k js)) (count k js)

abbrev pub here : Option RegistryEntry → ℕ
here none = 0
here (some e) = 1

-- The cancelled workers of a key and that of its entry, where it has one.
abbrev pub workers : Text → RegistryManager → ℕ
workers k rm = count k rm.cancelled + here (get Text-discrete k rm.registry)

-- Whether a call that leads from one to the other made an entry of the key.
abbrev pub new_entries : Text → RegistryManager → RegistryManager → ℕ
new_entries k rm rm' =
    here (get Text-discrete k rm'.registry) - here (get Text-discrete k rm.registry)

abbrev Balanced : Text → RegistryManager → RegistryManager → Type 0
Balanced k rm rm' = workers k rm' ≡ new_entries k rm rm' + workers k rm

module _ (hex_to_address keccak256 : Text → ℕ) where
  -- The entries of a key that the calls make.
  abbrev pub made : Text → RegistryManager → List Call → ℕ
  made k rm [] = 0
  made k rm (c ∷ cs) =
      new_entries k rm (step hex_to_address keccak256 rm c)
      + made k (step hex_to_address keccak256 rm c) cs
