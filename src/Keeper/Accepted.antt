-- ===== src/Keeper/Accepted.antt =====
-- internal/keeper/core/validation: what an accepted transaction and an accepted task have passed.
use triggerx_backend.Prelude.{
  ℕ, String, ◌≡◌, refl, ap, ◌∙◌, ◌+◌, ◌≤◌, ◌⊎◌, inl, inr, ◌↔◌, Bool, true, false, not, ◌&&◌, ◌||◌,
  Option, none, some, List, [], ◌∷◌, ltb, ◌==◌, arith, str_eq,
}
use triggerx_backend.Prelude.Results.{Result, ok, err, panic, >>=-eq-ok, >>-eq-ok}
use triggerx_backend.Retry.Loop.{Outcome}
use triggerx_backend.Types.{SendTaskDataToKeeper, TaskTargetData, TaskTriggerData}
use triggerx_backend.Keeper.Data.{IpfsData, Services, ProofData, Certificate, PerformerActionData}
use triggerx_backend.Keeper.Trigger.{
  ValidationError, Chain, Receipt, and_then, time_tolerance, get_block_timestamp, validate_trigger,
  without_receipt,
}
use triggerx_backend.Keeper.Signatures.{validate_manager_signature, validate_performer_signature}
use triggerx_backend.Keeper.Proof.{pointer, without_proof, validate_proof_hash, validate_proof}
use triggerx_backend.Keeper.Action.{
  expiration_time_tolerance, retried, first, receipt_checks, validate_action, Surroundings,
  validate_ipfs_data,
}

and_then-eq-ok :
    (m k : Result ValidationError Bool) → and_then m k ≡ ok true → (m ≡ ok true) × (k ≡ ok true)
and_then-eq-ok (ok true) k h = (refl, h)
and_then-eq-ok (ok false) k h = cc
and_then-eq-ok (err e) k h = cc
and_then-eq-ok panic k h = cc

is_equal : (a b : ℕ) → not (a == b) ≡ false → a ≡ b
is_equal a b h = ground arith

not_after : (a b : ℕ) → ltb a b ≡ false → b ≤ a
not_after a b h = ground arith

next_checked :
    (k : ℕ) (late : Bool)
    → (k ≡ 1) ⊎ (k ≡ 2)
    → (((k == 1) || (k == 2)) && late) ≡ false
    → late ≡ false
next_checked k late (inl h) e = ground arith
next_checked k late (inr h) e = ground arith

module _ (chain : Chain) where
  -- A transaction that succeeded in time.
  pub record InTime (target : TaskTargetData) (trigger : TaskTriggerData)
      (receipts : Outcome String Receipt) : Type 0 where
    pub receipt : Receipt
    pub found : retried receipts ≡ some receipt
    pub succeeded : receipt.status ≡ 1
    pub timestamp : ℕ
    pub stamped : get_block_timestamp chain target.target_chain_id receipt ≡ ok timestamp
    pub unexpired : timestamp ≤ trigger.expiration_time + expiration_time_tolerance
    pub before_next :
        (target.task_definition_id ≡ 1) ⊎ (target.task_definition_id ≡ 2)
        → timestamp ≤ trigger.next_trigger_timestamp + time_tolerance

  without_receipt-fails : (o : Option Bool) → without_receipt o ≡ ok true → ⊥
  unfolding without_receipt
  without_receipt-fails none h = cc
  without_receipt-fails (some true) h = cc
  without_receipt-fails (some false) h = cc

  -- A validator accepts the transaction of a task only if it has its receipt, the transaction
  -- succeeded, and its block's timestamp is known, at most 11 seconds after the task's expiration
  -- and, for a time task, at most 8 seconds after the next trigger.
  pub validate_action-InTime :
      (target : TaskTargetData) (trigger : TaskTriggerData) (receipts : Outcome String Receipt)
      (pending : Outcome String Bool)
      → validate_action chain target trigger receipts pending ≡ ok true
      → InTime target trigger receipts
  unfolding validate_action
  validate_action-InTime target trigger receipts pending h = of_receipt (retried receipts) refl h
    where
      checked :
          (r : Receipt)
          → retried receipts ≡ some r
          → receipt_checks chain target trigger r ≡ ok true
          → InTime target trigger receipts
      checked r f h =
          let s = >>-eq-ok _ _ h in
          let t = >>=-eq-ok (get_block_timestamp chain target.target_chain_id r) _ s.1 in
          let u = >>-eq-ok _ _ t.2 in
          let v = >>-eq-ok _ _ u.1 in
          record {
            receipt = r;
            found = f;
            succeeded = is_equal r.status 1 s.0;
            timestamp = t.0;
            stamped = t.1;
            unexpired = not_after _ t.0 u.0;
            before_next = λ k. not_after _ t.0 (next_checked target.task_definition_id _ k v.0);
          }

      of_receipt :
          (o : Option Receipt)
          → retried receipts ≡ o
          → elim o [
            | none ↦ without_receipt (retried pending)
            | some r ↦ receipt_checks chain target trigger r
          ]
            ≡ ok true
          → InTime target trigger receipts
      of_receipt none f h = elim (without_receipt-fails (retried pending) h) [ ]
      of_receipt (some r) f h = checked r f h

module _ (chain : Chain) (Details : Type 0) (services : Services Details) where
  abbrev pub without_signature :
      SendTaskDataToKeeper → PerformerActionData Details → ProofData → IpfsData Details
  without_signature task action proof = record {
    task_data = some task;
    action_data = some action;
    proof_data = some proof;
    performer_signature = none;
  }

  -- The checks of `ValidateTask` on what it fetched.
  pub record IsAccepted (around : Surroundings chain Details services) (d : IpfsData Details)
      : Type 0 where
    pub task : SendTaskDataToKeeper
    pub target : TaskTargetData
    pub trigger : TaskTriggerData
    pub action : PerformerActionData Details
    pub task_there : pointer {E = ValidationError} d.task_data ≡ ok task
    pub target_there : first {E = ValidationError} task.target_data ≡ ok target
    pub trigger_there : first {E = ValidationError} task.trigger_data ≡ ok trigger
    pub action_there : pointer {E = ValidationError} d.action_data ≡ ok action
    pub manager_signed : validate_manager_signature Details services d.task_data ≡ ok true
    pub dialled : not (chain.dial target.target_chain_id) ≡ false
    pub triggered : validate_trigger chain trigger ≡ ok true
    pub acted :
        validate_action chain target trigger
          (around.receipts action.action_tx_hash)
          (around.pending action.action_tx_hash)
        ≡ ok true
    pub proved : validate_proof Details services around.connection d ≡ ok true
    pub performer_signed : validate_performer_signature Details services d ≡ ok true

  -- A validator accepts what it fetched exactly where all checks succeed: the manager's signature, the
  -- first target's chain, the first trigger, the transaction, the proof and the performer's signature.
  pub validate_ipfs_data_iff :
      (around : Surroundings chain Details services) (d : IpfsData Details)
      → (validate_ipfs_data chain Details services around d ≡ ok true) ↔ IsAccepted around d
  unfolding validate_ipfs_data
  validate_ipfs_data_iff around d = (
    accepted,
    λ a.
        rw
          (
            a.manager_signed, a.task_there, a.target_there, a.dialled, a.trigger_there, a.triggered,
            a.action_there, a.acted, a.proved, a.performer_signed,
          )
          refl,
  )
    where
      accepted : validate_ipfs_data chain Details services around d ≡ ok true → IsAccepted around d
      accepted h =
          let m = and_then-eq-ok _ _ h in
          let task = >>=-eq-ok (pointer d.task_data) _ m.1 in
          let target = >>=-eq-ok (first task.0.target_data) _ task.2 in
          let dial = >>-eq-ok _ _ target.2 in
          let trigger = >>=-eq-ok (first task.0.trigger_data) _ dial.1 in
          let fired = and_then-eq-ok _ _ trigger.2 in
          let action = >>=-eq-ok (pointer d.action_data) _ fired.1 in
          let acted = and_then-eq-ok _ _ action.2 in
          let proved = and_then-eq-ok _ _ acted.1 in
          let signed = and_then-eq-ok _ _ proved.1 in
          record {
            task = task.0;
            target = target.0;
            trigger = trigger.0;
            action = action.0;
            task_there = task.1;
            target_there = target.1;
            trigger_there = trigger.1;
            action_there = action.1;
            manager_signed = m.0;
            dialled = dial.0;
            triggered = fired.0;
            acted = acted.0;
            proved = proved.0;
            performer_signed = signed.0;
          }

  unsigned_proof-panics :
      (task : SendTaskDataToKeeper) (action : PerformerActionData Details) (proof : ProofData)
      (certificate : Certificate) (certificates : List Certificate)
      → str_eq proof.proof_of_task "" ≡ false
      → str_eq proof.certificate_hash "" ≡ false
      → validate_proof Details services
          (some (certificate ∷ certificates))
          (without_signature task action proof)
        ≡ panic
  unfolding validate_proof validate_proof_hash without_proof
  unsigned_proof-panics task action proof certificate certificates proved certified =
      rw (proved, certified) (go task.task_id)
    where
      go :
          (ids : List ℕ)
          → validate_proof_hash Details services
              (without_signature (record task { task_id = ids }) action proof)
              proof
            ≡ panic
      go [] = refl
      go (i ∷ ids) = refl

  -- Data without a performer's signature makes the validator panic, if the task, the trigger and the
  -- transaction pass, the target's chain is reached, the TLS connection gives a certificate, and the
  -- proof's two hashes are not empty: the proof's hash is checked before the signature, and reads the
  -- signature's address.
  pub validate_ipfs_data-panics :
      (around : Surroundings chain Details services) (task : SendTaskDataToKeeper)
      (target : TaskTargetData) (trigger : TaskTriggerData) (action : PerformerActionData Details)
      (proof : ProofData) (certificate : Certificate) (certificates : List Certificate)
      → first {E = ValidationError} task.target_data ≡ ok target
      → first {E = ValidationError} task.trigger_data ≡ ok trigger
      → validate_manager_signature Details services (some task) ≡ ok true
      → not (chain.dial target.target_chain_id) ≡ false
      → validate_trigger chain trigger ≡ ok true
      → validate_action chain target trigger
          (around.receipts action.action_tx_hash)
          (around.pending action.action_tx_hash)
        ≡ ok true
      → around.connection ≡ some (certificate ∷ certificates)
      → str_eq proof.proof_of_task "" ≡ false
      → str_eq proof.certificate_hash "" ≡ false
      → validate_ipfs_data chain Details services around (without_signature task action proof)
        ≡ panic
  unfolding validate_ipfs_data
  validate_ipfs_data-panics around task target trigger action proof certificate certificates targets
        triggers manager dials triggered acted connected proved certified =
      let panics =
        ap (λ c. validate_proof Details services c (without_signature task action proof)) connected
        ∙ unsigned_proof-panics task action proof certificate certificates proved certified in
      rw (manager, targets, dials, triggers, triggered, acted, panics) refl
