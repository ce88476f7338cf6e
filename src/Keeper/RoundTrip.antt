-- ===== src/Keeper/RoundTrip.antt =====
-- What a performer uploads, against the checks of the validators.
use triggerx_backend.Prelude.{
  ℕ, ◌≡◌, refl, sym, ap, ◌∙◌, ◌↔◌, String, true, false, not, Option, some, List, ◌∷◌, str_eq,
}
use triggerx_backend.Prelude.Results.{ok}
use triggerx_backend.Types.{SendTaskDataToKeeper, TaskTargetData, TaskTriggerData}
use triggerx_backend.Keeper.Data.{IpfsData, Services, ProofData, PerformerActionData, Certificate}
use triggerx_backend.Keeper.Trigger.{Chain, validate_trigger}
use triggerx_backend.Keeper.Signatures.{validate_manager_signature, validate_performer_signature}
use triggerx_backend.Keeper.Proof.{
  pointer, validate_certificate, generate_proof, without_proof, validate_proof,
}
use triggerx_backend.Keeper.Performer.{
  Performer, proof_or_zero, task_part, unproved_data, performer_ipfs_data,
}
use triggerx_backend.Keeper.Action.{
  Surroundings, validate_action, validate_ipfs_data, from_second, validate_task,
}
use triggerx_backend.Keeper.Accepted.{validate_ipfs_data_iff}
use triggerx_backend.Keeper.Uploaded.{
  claimed_id, Signed, signed-Signed, validate_performer_signature-Signed, validate_proof-ok,
  generate_proof-ok,
}

module _ (Details : Type 0) (services : Services Details)
    (performer : Performer Details services) where
  open services use {
    marshal_ipfs_data, lower_json_of_ipfs_data, sha256_hex, sign_message, verify_signature,
  }

  module _ (now : ℕ) (certificate : Certificate) (certificates : List Certificate) (i : ℕ)
      (task : SendTaskDataToKeeper) (target : TaskTargetData) (trigger : TaskTriggerData)
      (action : PerformerActionData Details) (uploaded : IpfsData Details)
      (made : performer_ipfs_data Details services now
          (some (certificate ∷ certificates))
          performer
          i
          task
          target
          trigger
          action
        ≡ ok uploaded) where
    abbrev pub unproved : IpfsData Details
    unfolding unproved_data
    unproved = unproved_data Details services performer i task target trigger action

    made-Signed :
        Signed Details services performer i
          (record unproved {
            proof_data = some (
                proof_or_zero (
                  generate_proof Details services now unproved
                    (some (certificate ∷ certificates))));
          })
          uploaded
    unfolding performer_ipfs_data unproved_data
    made-Signed = signed-Signed Details services performer i _ uploaded made

    without-Signed :
        {p : Option ProofData}
        → Signed Details services performer i (record unproved { proof_data = p }) uploaded
        → (without_proof Details services uploaded ≡ ok unproved) ↔ (i ≡ target.task_id)
    unfolding without_proof task_part unproved_data claimed_id
    without-Signed s =
        rw s.result (λ h. sym (ap (claimed_id Details services performer) h), λ h. rw h refl)

    -- On the data itself: the data whose hash is compared with the proof is the data whose hash the
    -- performer took for it exactly where the first id of the task is that of the target.
    pub without_proof-unproved :
        (without_proof Details services uploaded ≡ ok unproved) ↔ (i ≡ target.task_id)
    without_proof-unproved = without-Signed made-Signed

    -- If the first id of the task is that of the target, the performer's data can be marshalled, its
    -- connection's certificate is valid, hashes are not empty, and the validator finds a certificate
    -- too, then the proof in what the performer uploads is accepted.
    pub validate_proof-performer :
        (text : String) (connection : Certificate × List Certificate)
        → ((t : String) → str_eq (sha256_hex t) "" ≡ false)
        → i ≡ target.task_id
        → marshal_ipfs_data unproved ≡ some text
        → validate_certificate now certificate ≡ true
        → validate_proof Details services (some (connection.0 ∷ connection.1)) uploaded ≡ ok true
    unfolding performer_ipfs_data
    validate_proof-performer text connection hashes same json valid =
        validate_proof-ok Details services performer uploaded unproved _ text connection hashes
          (hashes certificate.raw) (without_proof-unproved.1 same) json refl
          (ap (λ (d : IpfsData Details). d.proof_data) made-Signed.result
            ∙ ap (λ r. some (proof_or_zero r))
                (generate_proof-ok Details services performer now unproved certificate certificates
                  text target.task_id json valid refl))

    -- If the performer's address is not empty, and every signature that its key makes is not empty and
    -- is verified with its address, then the signature in what the performer uploads is accepted.
    pub validate_performer_signature-performer :
        str_eq performer.consensus_address "" ≡ false
        → ((m x : String)
            → sign_message m performer.private_key_consensus ≡ some x
            → (str_eq x "" ≡ false)
              × (verify_signature m x performer.consensus_address ≡ some true))
        → validate_performer_signature Details services uploaded ≡ ok true
    unfolding performer_ipfs_data
    validate_performer_signature-performer address verifies =
        validate_performer_signature-Signed Details services performer i _ uploaded made-Signed
          address verifies

    -- A validator that has the performer's data itself accepts it.
    validate_ipfs_data-performer :
        (chain : Chain) (around : Surroundings chain Details services) (text : String)
        (connection : Certificate × List Certificate)
        → task ≡ task_part Details services task target trigger
        → i ≡ target.task_id
        → validate_manager_signature Details services (some task) ≡ ok true
        → chain.dial target.target_chain_id ≡ true
        → validate_trigger chain trigger ≡ ok true
        → validate_action chain target trigger
            (around.receipts action.action_tx_hash)
            (around.pending action.action_tx_hash)
          ≡ ok true
        → around.connection ≡ some (connection.0 ∷ connection.1)
        → ((t : String) → str_eq (sha256_hex t) "" ≡ false)
        → marshal_ipfs_data unproved ≡ some text
        → validate_certificate now certificate ≡ true
        → str_eq performer.consensus_address "" ≡ false
        → ((m x : String)
            → sign_message m performer.private_key_consensus ≡ some x
            → (str_eq x "" ≡ false)
              × (verify_signature m x performer.consensus_address ≡ some true))
        → validate_ipfs_data chain Details services around uploaded ≡ ok true
    unfolding task_part unproved_data
    validate_ipfs_data-performer chain around text connection single same manager dials triggered
          acted connected hashes json valid address verifies =
        (validate_ipfs_data_iff chain Details services around uploaded).1 (record {
          task = task_part Details services task target trigger;
          target = target;
          trigger = trigger;
          action = action;
          task_there = ap (λ (d : IpfsData Details). pointer d.task_data) made-Signed.result;
          target_there = refl;
          trigger_there = refl;
          action_there = ap (λ (d : IpfsData Details). pointer d.action_data) made-Signed.result;
          manager_signed =
              ap (λ (d : IpfsData Details). validate_manager_signature Details services d.task_data)
                made-Signed.result
              ∙ ap (λ t. validate_manager_signature Details services (some t)) (sym single)
              ∙ manager;
          dialled = ap not dials;
          triggered = triggered;
          acted = acted;
          proved =
              ap (λ c. validate_proof Details services c uploaded) connected
              ∙ validate_proof-performer text connection hashes same json valid;
          performer_signed = validate_performer_signature-performer address verifies;
        })

    -- What the performer of a task with one target, whose id is the first of the task, uploads is
    -- accepted by a validator that is given its address: if IPFS gives back under the address what
    -- was uploaded, unchanged by the way through JSON, the validator accepts the manager's signature
    -- on the task, the trigger and the transaction, reaches the chain and finds a certificate at the
    -- proof's host, the performer's data can be marshalled, its connection's certificate is valid,
    -- hashes and the performer's address are not empty, and every signature that its key makes is
    -- not empty and is verified with its address.
    pub validate_task-performer :
        (chain : Chain) (around : Surroundings chain Details services) (text : String)
        (connection : Certificate × List Certificate) (address hex cid : String)
        → from_second chain Details services address ≡ ok hex
        → services.hex_decode hex ≡ some cid
        → services.fetch cid ≡ some uploaded
        → task ≡ task_part Details services task target trigger
        → i ≡ target.task_id
        → validate_manager_signature Details services (some task) ≡ ok true
        → chain.dial target.target_chain_id ≡ true
        → validate_trigger chain trigger ≡ ok true
        → validate_action chain target trigger
            (around.receipts action.action_tx_hash)
            (around.pending action.action_tx_hash)
          ≡ ok true
        → around.connection ≡ some (connection.0 ∷ connection.1)
        → ((t : String) → str_eq (sha256_hex t) "" ≡ false)
        → marshal_ipfs_data unproved ≡ some text
        → validate_certificate now certificate ≡ true
        → str_eq performer.consensus_address "" ≡ false
        → ((m x : String)
            → sign_message m performer.private_key_consensus ≡ some x
            → (str_eq x "" ≡ false)
              × (verify_signature m x performer.consensus_address ≡ some true))
        → validate_task chain Details services around address ≡ ok true
    unfolding validate_task
    validate_task-performer chain around text connection address hex cid second decoded fetched
          single same manager dials triggered acted connected hashes json valid named verifies =
        rw (second, decoded, fetched)
          (validate_ipfs_data-performer chain around text connection single same manager dials
            triggered acted connected hashes json valid named verifies)
