-- ===== src/Keeper/Uploaded.antt =====
-- The signature and the proof of a performer, against the two checks of them.
use triggerx_backend.Prelude.{
  ℕ, ◌≡◌, refl, String, true, false, Option, none, some, List, ◌∷◌, str_eq, str_eq_iff,
}
use triggerx_backend.Prelude.Results.{Result, ok, err, panic}
use triggerx_backend.Keeper.Data.{
  IpfsData, Services, ProofData, PerformerSignatureData, Certificate,
}
use triggerx_backend.Keeper.Trigger.{ValidationError, proof_missing}
use triggerx_backend.Keeper.Signatures.{
  sign_json_message, verify_signature_from_json, unsigned, validate_performer_signature,
}
use triggerx_backend.Keeper.Proof.{
  ProofError, first_task_id, proof_checks, generate_with, validate_certificate, stringify_ipfs_data,
  generate_proof, without_proof, validate_proof_hash, validate_proof,
}
use triggerx_backend.Keeper.Performer.{Performer, PerformerError, signing_failed, signed}

module _ (Details : Type 0) (services : Services Details)
    (performer : Performer Details services) where
  open services use {
    marshal_ipfs_data, lower_json_of_ipfs_data, sha256_hex, sign_message, verify_signature,
  }

  -- The signature data with which the performer's data goes out.
  abbrev pub performer_signature_of : ℕ → String → PerformerSignatureData
  performer_signature_of i signature = record {
    task_id = i;
    performer_signing_address = performer.consensus_address;
    performer_signature = signature;
  }

  unfoldable pub claimed_id : Result ValidationError (IpfsData Details) → ℕ
  claimed_id (ok d) = elim d.proof_data [ none ↦ 0 | some p ↦ p.task_id ]
  claimed_id (err e) = 0
  claimed_id panic = 0

  -- What `signed` returns.
  pub record Signed (i : ℕ) (d e : IpfsData Details) : Type 0 where
    pub message : String
    pub signature : String
    pub json :
        lower_json_of_ipfs_data (unsigned Details services d (performer_signature_of i ""))
        ≡ some message
    pub signing : sign_message message performer.private_key_consensus ≡ some signature
    pub result : e ≡ record d { performer_signature = some (performer_signature_of i signature) }

  pub signed-Signed :
      (i : ℕ) (d e : IpfsData Details) → signed Details services performer i d ≡ ok e → Signed i d e
  unfolding sign_json_message
  signed-Signed i d e h = with_json _ refl h
    where
      out : String → IpfsData Details
      out signature = record d { performer_signature = some (performer_signature_of i signature) }

      with_signature :
          (m : String) (g : Option String)
          → lower_json_of_ipfs_data (unsigned Details services d (performer_signature_of i ""))
            ≡ some m
          → sign_message m performer.private_key_consensus ≡ g
          → ◌≡◌ {A = Result PerformerError (IpfsData Details)}
              (elim g [ none ↦ err signing_failed | some x ↦ ok (out x) ])
              (ok e)
          → Signed i d e
      with_signature m none p q h = cc
      with_signature m (some x) p q h = record {
        message = m;
        signature = x;
        json = p;
        signing = q;
        result = cc;
      }

      with_json :
          (j : Option String)
          → lower_json_of_ipfs_data (unsigned Details services d (performer_signature_of i "")) ≡ j
          → ◌≡◌ {A = Result PerformerError (IpfsData Details)}
              (elim (sign_json_message Details services j performer.private_key_consensus) [
                | none ↦ err signing_failed
                | some x ↦ ok (out x)
              ])
              (ok e)
          → Signed i d e
      with_json none p h = cc
      with_json (some m) p h = with_signature m _ p refl h

  pub validate_performer_signature-Signed :
      (i : ℕ) (d e : IpfsData Details)
      → Signed i d e
      → str_eq performer.consensus_address "" ≡ false
      → ((m x : String)
          → sign_message m performer.private_key_consensus ≡ some x
          → (str_eq x "" ≡ false) × (verify_signature m x performer.consensus_address ≡ some true))
      → validate_performer_signature Details services e ≡ ok true
  unfolding validate_performer_signature verify_signature_from_json
  validate_performer_signature-Signed i d e s address verifies =
      let v = verifies s.message s.signature s.signing in
      rw (s.result, v.0, address, s.json, v.1) refl

  -- A proof passes that has the hash of the data without it.
  pub validate_proof-ok :
      (d copy : IpfsData Details) (proof : ProofData) (text : String)
      (connection : Certificate × List Certificate)
      → ((t : String) → str_eq (sha256_hex t) "" ≡ false)
      → str_eq proof.certificate_hash "" ≡ false
      → without_proof Details services d ≡ ok copy
      → marshal_ipfs_data copy ≡ some text
      → proof.proof_of_task ≡ sha256_hex text
      → d.proof_data ≡ some proof
      → validate_proof Details services (some (connection.0 ∷ connection.1)) d ≡ ok true
  unfolding validate_proof validate_proof_hash stringify_ipfs_data
  validate_proof-ok d copy proof text connection hashes certified rest json hash there =
      go d.proof_data there
    where
      of_proof :
          (h : String)
          → h ≡ sha256_hex text
          → proof_checks Details services
              (some (connection.0 ∷ connection.1))
              d
              (record proof { proof_of_task = h })
            ≡ ok true
      of_proof h e =
          rw
            (
              e,
              hashes text,
              certified,
              rest,
              json,
              (str_eq_iff (sha256_hex text) (sha256_hex text)).1 refl,
            )
            refl

      go :
          (o : Option ProofData)
          → o ≡ some proof
          → elim o [
            | none ↦ err proof_missing
            | some p ↦ proof_checks Details services (some (connection.0 ∷ connection.1)) d p
          ]
            ≡ ok true
      go o e = rw e (of_proof proof.proof_of_task hash)

  pub generate_proof-ok :
      (now : ℕ) (d : IpfsData Details) (certificate : Certificate) (certificates : List Certificate)
      (text : String) (i : ℕ)
      → marshal_ipfs_data d ≡ some text
      → validate_certificate now certificate ≡ true
      → first_task_id {E = ProofError} d.task_data ≡ ok i
      → generate_proof Details services now d (some (certificate ∷ certificates))
        ≡ ok (record {
          task_id = i;
          proof_of_task = sha256_hex text;
          certificate_hash = sha256_hex certificate.raw;
          certificate_timestamp = now;
        })
  unfolding generate_proof stringify_ipfs_data
  generate_proof-ok now d certificate certificates text i json valid id =
      rw (json, generate_proof, generate_with, valid, id) refl
