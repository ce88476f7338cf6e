-- ===== src/Keeper/Proof.antt =====
-- The proof of a task: `GenerateProof` (pkg/proof/proof.go) and its check by the validators
-- (internal/keeper/core/validation/proof.go). A TLS connection is the list of the peer's
-- certificates.
use triggerx_backend.Prelude.{
  ℕ, String, Bool, true, not, ◌||◌, Option, none, some, List, [], ◌∷◌, str_eq, ltb, if◌then◌else◌,
}
use triggerx_backend.Prelude.Results.{Result, ok, err, panic, reject_if, ◌>>=◌, ◌>>◌}
use triggerx_backend.Types.{SendTaskDataToKeeper}
use triggerx_backend.Keeper.Data.{
  IpfsData, Services, ProofData, Certificate, empty_proof, empty_signature,
}
use triggerx_backend.Keeper.Trigger.{
  ValidationError, or_error, proof_missing, proof_empty, certificate_hash_empty, no_tls_connection,
  no_certificates, not_stringified, proof_hash_wrong,
}

pub data ProofError : Type 0 where
  no_connection no_peer_certificates stringify_failed certificate_invalid : ProofError

-- The first task id of the data, `TaskData.TaskID[0]`; it panics on data without one.
abbrev pub first_task_id : {E : Type 0} → Option SendTaskDataToKeeper → Result E ℕ
first_task_id none = panic
first_task_id (some task) = elim task.task_id [ [] ↦ panic | i ∷ ids ↦ ok i ]

abbrev pub pointer {ℓ} : {E : Type 0} {A : Type ℓ} → Option A → Result E A
pointer none = panic
pointer (some a) = ok a

unfoldable pub validate_certificate : ℕ → Certificate → Bool
validate_certificate now c = not (ltb now c.not_before || ltb c.not_after now || str_eq c.raw "")

module _ (Details : Type 0) (services : Services Details) where
  open services use {marshal_ipfs_data, sha256_hex}

  -- The map that is marshalled holds pointers, which `convertToLower` leaves as they are.
  unfoldable pub stringify_ipfs_data : IpfsData Details → Option String
  stringify_ipfs_data d = marshal_ipfs_data d

  abbrev pub generate_with : ℕ → IpfsData Details → Certificate → Result ProofError ProofData
  unfolding stringify_ipfs_data validate_certificate
  generate_with now d c = elim (stringify_ipfs_data d) [
    | none ↦ err stringify_failed
    | some text ↦
        if validate_certificate now c
        then (do
          task_id ← first_task_id d.task_data
          ok (record {
            task_id = task_id;
            proof_of_task = sha256_hex text;
            certificate_hash = sha256_hex c.raw;
            certificate_timestamp = now;
          }))
        else err certificate_invalid
  ]

  unfoldable pub generate_proof :
      ℕ → IpfsData Details → Option (List Certificate) → Result ProofError ProofData
  unfolding stringify_ipfs_data validate_certificate
  generate_proof now d none = err no_connection
  generate_proof now d (some []) = err no_peer_certificates
  generate_proof now d (some (c ∷ cs)) = generate_with now d c

  -- The data whose hash the proof is compared with.
  unfoldable pub without_proof : IpfsData Details → Result ValidationError (IpfsData Details)
  without_proof d = do
    task_id ← first_task_id d.task_data
    signature ← pointer d.performer_signature
    ok (record d {
      proof_data = some (record empty_proof { task_id = task_id });
      performer_signature = some (record empty_signature {
        task_id = task_id;
        performer_signing_address = signature.performer_signing_address;
      });
    })

  unfoldable pub validate_proof_hash : IpfsData Details → ProofData → Result ValidationError Bool
  unfolding without_proof stringify_ipfs_data
  validate_proof_hash d proof = do
    copy ← without_proof d
    text ← or_error (stringify_ipfs_data copy) not_stringified
    reject_if (not (str_eq (sha256_hex text) proof.proof_of_task)) proof_hash_wrong
    ok true

  -- The certificate of the validator's own connection is only logged against that of the proof.
  abbrev pub connected : Option (List Certificate) → Result ValidationError (Unit {0})
  connected none = err no_tls_connection
  connected (some []) = err no_certificates
  connected (some (c ∷ cs)) = ok tt

  abbrev pub proof_checks :
      Option (List Certificate) → IpfsData Details → ProofData → Result ValidationError Bool
  unfolding validate_proof_hash
  proof_checks connection d proof = do
    reject_if (str_eq proof.proof_of_task "") proof_empty
    reject_if (str_eq proof.certificate_hash "") certificate_hash_empty
    connected connection
    validate_proof_hash d proof

  unfoldable pub validate_proof :
      Option (List Certificate) → IpfsData Details → Result ValidationError Bool
  unfolding validate_proof_hash
  validate_proof connection d = elim d.proof_data [
    | none ↦ err proof_missing
    | some proof ↦ proof_checks connection d proof
  ]
