-- ===== src/TaskDispatcher/Signed.antt =====
-- The signature of a request, against the check that the keepers make of each task.
use triggerx_backend.Prelude.{
  ℕ, ◌≡◌, ◌≢◌, refl, sym, ap, ◌∙◌, subst, String, Bool, true, false, not, Option, none, some, List,
  [], ◌∷◌, str_eq, str_eq_iff, All,
}
use triggerx_backend.Prelude.Results.{Result, ok, err, panic, ok-eq, reject_if, ◌>>=◌, ◌>>◌}
use triggerx_backend.Types.{SendTaskDataToKeeper, TaskTargetData, TaskTriggerData}
use triggerx_backend.Keeper.Data.{Services}
use triggerx_backend.Keeper.Trigger.{
  ValidationError, or_error, manager_signature_missing, manager_signature_unverifiable,
  manager_signature_wrong,
}
use triggerx_backend.Keeper.Signatures.{verify_signature_from_json, validate_manager_signature}
use triggerx_backend.TaskDispatcher.Dispatcher.{DispatchError, StreamTask, chained, split_from}

module _ (Details : Type 0) (services : Services Details) where
  open services use {lower_json_of_task, verify_signature, manager_signing_address}

  -- What the check comes to for a task with a signature.
  abbrev pub Verifies : SendTaskDataToKeeper → Type 0
  Verifies u =
      (m : String) × (lower_json_of_task (record u { manager_signature = "" }) ≡ some m)
      × (verify_signature m u.manager_signature manager_signing_address ≡ some true)

  -- The checks, given whether the signature is empty and what the verification says.
  abbrev checks : Bool → Option Bool → Result ValidationError Bool
  checks empty verified =
      reject_if empty manager_signature_missing
      >> (or_error verified manager_signature_unverifiable
          >>= (λ v. reject_if (not v) manager_signature_wrong >> ok true))

  checks-ok :
      (empty : Bool) (verified : Option Bool)
      → checks empty verified ≡ ok true
      → (empty ≡ false) × (verified ≡ some true)
  checks-ok true verified h = cc
  checks-ok false none h = cc
  checks-ok false (some false) h = cc
  checks-ok false (some true) h = (refl, refl)

  verified-json :
      (o : Option String) (s a : String)
      → verify_signature_from_json Details services o s a ≡ some true
      → (m : String) × (o ≡ some m) × (verify_signature m s a ≡ some true)
  unfolding verify_signature_from_json
  verified-json none s a h = cc
  verified-json (some m) s a h = (m, refl, h)

  pub validate_manager_signature-Verifies :
      (u : SendTaskDataToKeeper)
      → validate_manager_signature Details services (some u) ≡ ok true
      → Verifies u
  unfolding validate_manager_signature
  validate_manager_signature-Verifies u h =
      verified-json (lower_json_of_task (record u { manager_signature = "" })) u.manager_signature
        manager_signing_address (checks-ok (str_eq u.manager_signature "") _ h).1

  pub Verifies-validate_manager_signature :
      (u : SendTaskDataToKeeper)
      → u.manager_signature ≢ ""
      → Verifies u
      → validate_manager_signature Details services (some u) ≡ ok true
  unfolding validate_manager_signature verify_signature_from_json
  Verifies-validate_manager_signature u n (m, j, v) =
      ap
        (λ (b : Bool). checks b (
          verify_signature_from_json Details services
            (lower_json_of_task (record u { manager_signature = "" })) u.manager_signature
            manager_signing_address))
        (is_false (str_eq u.manager_signature "") refl)
      ∙ ap
          (λ (o : Option String). checks false (
            verify_signature_from_json Details services o u.manager_signature
              manager_signing_address))
          j
      ∙ ap (checks false) v
    where
      is_false :
          (b : Bool) → str_eq u.manager_signature "" ≡ b → str_eq u.manager_signature "" ≡ false
      is_false true e = absurd (n ((str_eq_iff u.manager_signature "").0 e))
      is_false false e = e

-- Each task of a split has one id and the request's signature.
abbrev pub IsPart : String → StreamTask → Type 0
IsPart signature t =
    (id : ℕ) × (t.send_task_data_to_keeper.task_id ≡ id ∷ [])
    × (t.send_task_data_to_keeper.manager_signature ≡ signature)

chained-ok :
    (t : StreamTask) (o : Result DispatchError (List StreamTask)) (ts : List StreamTask)
    → chained t o ≡ ok ts
    → (us : List StreamTask) × (o ≡ ok us) × (ts ≡ t ∷ us)
chained-ok t (ok us) ts h = (us, refl, sym (ok-eq h))
chained-ok t (err e) ts h = cc
chained-ok t panic ts h = cc

pub split_from-IsPart :
    (is_mainnet : Bool) (d : SendTaskDataToKeeper) (ids : List ℕ) (targets : List TaskTargetData)
    (triggers : List TaskTriggerData) (ts : List StreamTask)
    → split_from is_mainnet d ids targets triggers ≡ ok ts
    → All (IsPart d.manager_signature) ts
split_from-IsPart b d [] targets triggers ts h =
    subst (All (IsPart d.manager_signature)) (ok-eq h) tt
split_from-IsPart b d (id ∷ ids) [] triggers ts h = cc
split_from-IsPart b d (id ∷ ids) (x ∷ targets) [] ts h = cc
split_from-IsPart b d (id ∷ ids) (x ∷ targets) (y ∷ triggers) ts h =
    let (us, q, e) = chained-ok _ _ ts h in
    subst (All (IsPart d.manager_signature)) (sym e)
      ((id, refl, refl), split_from-IsPart b d ids targets triggers us q)
