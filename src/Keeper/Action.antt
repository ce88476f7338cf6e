-- ===== src/Keeper/Action.antt =====
-- internal/keeper/core/validation: the check of the performer's transaction (action.go) and of a
-- whole task (validator.go).
use triggerx_backend.Prelude.{
  ℕ, ◌+◌, String, Bool, true, not, ◌&&◌, ◌||◌, Option, none, some, List, [], ◌∷◌, ltb, ◌==◌,
}
use triggerx_backend.Prelude.Results.{Result, ok, panic, reject_if, ◌>>=◌, ◌>>◌}
use triggerx_backend.Retry.Loop.{Outcome, success, invalid, refused, done, exhausted, crashed}
use triggerx_backend.Types.{TaskTargetData, TaskTriggerData, seconds}
use triggerx_backend.Keeper.Data.{IpfsData, Services, Certificate}
use triggerx_backend.Keeper.Trigger.{
  ValidationError, Chain, Receipt, or_error, and_then, time_tolerance, get_block_timestamp,
  without_receipt, validate_trigger, transaction_unsuccessful, after_expiration,
  after_next_execution, chain_unreachable, not_hex, not_on_ipfs,
}
use triggerx_backend.Keeper.Signatures.{validate_manager_signature, validate_performer_signature}
use triggerx_backend.Keeper.Proof.{pointer, validate_proof}

abbrev pub expiration_time_tolerance : ℕ
expiration_time_tolerance = seconds 11

-- What a call of `Retry` gave.
abbrev pub retried : {A : Type 0} → Outcome String A → Option A
retried (success a) = some a
retried (invalid e) = none
retried (refused e) = none
retried done = none
retried (exhausted e) = none
retried crashed = none

-- `xs[0]`
abbrev pub first {ℓ} : {E : Type 0} {A : Type ℓ} → List A → Result E A
first [] = panic
first (x ∷ xs) = ok x

module _ (chain : Chain) where
  abbrev pub receipt_checks :
      TaskTargetData → TaskTriggerData → Receipt → Result ValidationError Bool
  unfolding get_block_timestamp
  receipt_checks target trigger receipt = do
    reject_if (not (receipt.status == 1)) transaction_unsuccessful
    timestamp ← get_block_timestamp chain target.target_chain_id receipt
    reject_if (ltb (trigger.expiration_time + expiration_time_tolerance) timestamp) after_expiration
    reject_if
        (((target.task_definition_id == 1) || (target.task_definition_id == 2))
          && ltb (trigger.next_trigger_timestamp + time_tolerance) timestamp)
        after_next_execution
    ok true

  -- The two calls of `Retry` are given by their outcomes: the receipt, and whether the transaction
  -- is pending.
  unfoldable pub validate_action :
      TaskTargetData
      → TaskTriggerData
      → Outcome String Receipt
      → Outcome String Bool
      → Result ValidationError Bool
  unfolding without_receipt get_block_timestamp
  validate_action target trigger receipts pending = elim (retried receipts) [
    | none ↦ without_receipt (retried pending)
    | some receipt ↦ receipt_checks target trigger receipt
  ]

module _ (chain : Chain) (Details : Type 0) (services : Services Details) where
  open services use {hex_decode, fetch}

  -- What one validation meets outside: the outcomes of the two retried calls for a transaction hash,
  -- and the TLS connection.
  pub record Surroundings : Type 0 where
    pub receipts : String → Outcome String Receipt
    pub pending : String → Outcome String Bool
    pub connection : Option (List Certificate)

  unfoldable pub validate_ipfs_data : Surroundings → IpfsData Details → Result ValidationError Bool
  unfolding validate_manager_signature validate_performer_signature validate_trigger validate_action
      validate_proof
  validate_ipfs_data around d =
      and_then (validate_manager_signature Details services d.task_data) (do
        task ← pointer d.task_data
        target ← first task.target_data
        reject_if (not (chain.dial target.target_chain_id)) chain_unreachable
        trigger ← first task.trigger_data
        and_then (validate_trigger chain trigger) (do
          action ← pointer d.action_data
          and_then
              (validate_action chain target trigger (around.receipts action.action_tx_hash)
                (around.pending action.action_tx_hash))
              (and_then (validate_proof Details services around.connection d)
                (and_then (validate_performer_signature Details services d) (ok true)))))

  -- `data[2:]`, which panics on shorter data.
  abbrev pub from_second : String → Result ValidationError String
  from_second (String.[]) = panic
  from_second (String.◌∷◌ c (String.[])) = panic
  from_second (String.◌∷◌ c (String.◌∷◌ d s)) = ok s

  unfoldable pub validate_task : Surroundings → String → Result ValidationError Bool
  unfolding validate_ipfs_data
  validate_task around d = do
    hex ← from_second d
    cid ← or_error (hex_decode hex) not_hex
    ipfs_data ← or_error (fetch cid) not_on_ipfs
    validate_ipfs_data around ipfs_data
