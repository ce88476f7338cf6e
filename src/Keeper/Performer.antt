-- ===== src/Keeper/Performer.antt =====
-- internal/keeper/core/execution/executor.go: the data that the performer of a task makes of it for
-- the validators, in the goroutine of one of the task's targets.
use triggerx_backend.Prelude.{ℕ, String, Option, none, some, List, [], ◌∷◌}
use triggerx_backend.Prelude.Results.{Result, ok, err, panic}
use triggerx_backend.Types.{SendTaskDataToKeeper, TaskTargetData, TaskTriggerData}
use triggerx_backend.Keeper.Data.{
  IpfsData, Services, ProofData, PerformerActionData, Certificate, empty_proof, empty_signature,
}
use triggerx_backend.Keeper.Signatures.{sign_json_message, unsigned}
use triggerx_backend.Keeper.Proof.{generate_proof}

pub data PerformerError : Type 0 where
  signing_failed : PerformerError

-- Where the proof fails its zero value is sent on, as in the source.
abbrev pub proof_or_zero : {E : Type 0} → Result E ProofData → ProofData
proof_or_zero (ok p) = p
proof_or_zero (err e) = empty_proof
proof_or_zero panic = empty_proof

module _ (Details : Type 0) (services : Services Details) where
  -- The consensus address and key of the performer.
  pub record Performer : Type 0 where
    pub consensus_address : String
    pub private_key_consensus : String

  -- The part of the task with one target.
  unfoldable pub task_part :
      SendTaskDataToKeeper → TaskTargetData → TaskTriggerData → SendTaskDataToKeeper
  task_part task target trigger = record task {
    task_id = target.task_id ∷ [];
    target_data = target ∷ [];
    trigger_data = trigger ∷ [];
  }

  -- `task.TaskID[0]` is the second argument.
  unfoldable pub unproved_data :
      Performer
      → ℕ
      → SendTaskDataToKeeper
      → TaskTargetData
      → TaskTriggerData
      → PerformerActionData Details
      → IpfsData Details
  unfolding task_part
  unproved_data performer i task target trigger action = record {
    task_data = some (task_part task target trigger);
    action_data = some action;
    proof_data = some (record empty_proof { task_id = i });
    performer_signature = some (record empty_signature {
      task_id = i;
      performer_signing_address = performer.consensus_address;
    });
  }

  abbrev pub signed : Performer → ℕ → IpfsData Details → Result PerformerError (IpfsData Details)
  unfolding sign_json_message
  signed performer i d =
      let s = record empty_signature {
        task_id = i;
        performer_signing_address = performer.consensus_address;
      } in
      elim (sign_json_message Details services
        (services.lower_json_of_ipfs_data (unsigned Details services d s))
        performer.private_key_consensus) [
          | none ↦ err signing_failed
          | some signature ↦ ok (record d {
            performer_signature = some (record s { performer_signature = signature });
          })
        ]

  -- The data that is uploaded, from the executed action on.
  unfoldable pub performer_ipfs_data :
      ℕ
      → Option (List Certificate)
      → Performer
      → ℕ
      → SendTaskDataToKeeper
      → TaskTargetData
      → TaskTriggerData
      → PerformerActionData Details
      → Result PerformerError (IpfsData Details)
  unfolding unproved_data generate_proof
  performer_ipfs_data now connection performer i task target trigger action =
      let d = unproved_data performer i task target trigger action in
      signed performer i (record d {
        proof_data = some (proof_or_zero (generate_proof Details services now d connection));
      })
