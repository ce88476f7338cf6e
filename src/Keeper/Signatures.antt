-- ===== src/Keeper/Signatures.antt =====
-- internal/keeper/core/validation/signatures.go, over `SignJSONMessage` and `VerifySignatureFromJSON`
-- of pkg/cryptography. Their JSON and elliptic curves are services.
use triggerx_backend.Prelude.{String, Bool, true, not, Option, none, some, str_eq}
use triggerx_backend.Prelude.Results.{Result, ok, err, panic, reject_if, ◌>>=◌, ◌>>◌}
use triggerx_backend.Types.{SendTaskDataToKeeper}
use triggerx_backend.Keeper.Data.{IpfsData, Services, PerformerSignatureData}
use triggerx_backend.Keeper.Trigger.{
  ValidationError, or_error, manager_signature_missing, manager_signature_unverifiable,
  manager_signature_wrong, performer_signature_missing, performer_signature_empty,
  performer_address_empty, performer_signature_unverifiable, performer_signature_wrong,
}

module _ (Details : Type 0) (services : Services Details) where
  open services use {
    lower_json_of_task, lower_json_of_ipfs_data, sign_message, verify_signature,
    manager_signing_address,
  }

  -- Given the lower-case JSON of the data.
  unfoldable pub verify_signature_from_json : Option String → String → String → Option Bool
  verify_signature_from_json none signature address = none
  verify_signature_from_json (some message) signature address =
      verify_signature message signature address

  unfoldable pub sign_json_message : Option String → String → Option String
  sign_json_message none key = none
  sign_json_message (some message) key = sign_message message key

  unfoldable pub validate_manager_signature :
      Option SendTaskDataToKeeper → Result ValidationError Bool
  unfolding verify_signature_from_json
  validate_manager_signature none = panic
  validate_manager_signature (some task) = do
    reject_if (str_eq task.manager_signature "") manager_signature_missing
    is_valid ←
        or_error
          (verify_signature_from_json (lower_json_of_task (record task { manager_signature = "" }))
            task.manager_signature manager_signing_address)
          manager_signature_unverifiable
    reject_if (not is_valid) manager_signature_wrong
    ok true

  -- The data that is signed: without the signature itself.
  abbrev pub unsigned : IpfsData Details → PerformerSignatureData → IpfsData Details
  unsigned d s = record d { performer_signature = some (record s { performer_signature = "" }) }

  abbrev pub signature_checks :
      IpfsData Details → PerformerSignatureData → Result ValidationError Bool
  unfolding verify_signature_from_json
  signature_checks d s = do
    reject_if (str_eq s.performer_signature "") performer_signature_empty
    reject_if (str_eq s.performer_signing_address "") performer_address_empty
    is_valid ←
        or_error
          (verify_signature_from_json (lower_json_of_ipfs_data (unsigned d s)) s.performer_signature
            s.performer_signing_address)
          performer_signature_unverifiable
    reject_if (not is_valid) performer_signature_wrong
    ok true

  unfoldable pub validate_performer_signature : IpfsData Details → Result ValidationError Bool
  unfolding verify_signature_from_json
  validate_performer_signature d = elim d.performer_signature [
    | none ↦ err performer_signature_missing
    | some s ↦ signature_checks d s
  ]
