-- ===== src/Keeper/Tests.antt =====
-- A condition task of one target, its performer and a validator, on a chain that knows one receipt.
use triggerx_backend.Prelude.{
  ℕ, ◌≡◌, refl, subst, ◌↔◌, inl, inr, String, true, false, some, some-eq, [], ◌∷◌, All, str_eq,
  arith,
}
use triggerx_backend.Prelude.Int.{pos}
use triggerx_backend.Prelude.Results.{ok, panic}
use triggerx_backend.Float.{exact, IsInt64, to_int64}
use triggerx_backend.Types.{SendTaskDataToKeeper, TaskTargetData, TaskTriggerData, seconds}
use triggerx_backend.Retry.Loop.{success, refused}
use triggerx_backend.Condition.Evaluate.{evaluate_condition}
use triggerx_backend.Condition.Worker.{start, run, step, tick, stop, see_done, check_condition}
use triggerx_backend.Condition.Notification.{
  Notification, ScheduleConditionJobData, create_trigger_data_from_notification,
}
use triggerx_backend.Condition.Extract.{
  fetch_value, fetch_from_api, extract_value_from_response, extract_fallback, parse_direct_value,
  first_non_zero, extract_value_by_key_path,
}
use triggerx_backend.Condition.Tests.{decoder, events, job_data}
use triggerx_backend.Keeper.Data.{IpfsData, Services, ProofData, PerformerActionData, Certificate}
use triggerx_backend.Keeper.Trigger.{
  Chain, Receipt, response, get_block_timestamp, validate_trigger, without_receipt,
  is_valid_condition_based_trigger, is_valid_event_based_trigger, is_valid_time_based_trigger,
}
use triggerx_backend.Keeper.Signatures.{
  sign_json_message, verify_signature_from_json, validate_manager_signature,
  validate_performer_signature,
}
use triggerx_backend.Keeper.Proof.{
  generate_proof, stringify_ipfs_data, validate_certificate, without_proof, validate_proof,
  validate_proof_hash,
}
use triggerx_backend.Keeper.Performer.{Performer, task_part, unproved_data, performer_ipfs_data}
use triggerx_backend.Keeper.Action.{
  Surroundings, validate_action, validate_ipfs_data, validate_task,
}
use triggerx_backend.Keeper.Triggered.{
  as_notification, greater_than_rejected, notifications-validated,
}
use triggerx_backend.Keeper.Accepted.{
  InTime, validate_action-InTime, IsAccepted, validate_ipfs_data_iff, without_signature,
  validate_ipfs_data-panics,
}
use triggerx_backend.Keeper.RoundTrip.{validate_task-performer}

abbrev receipt : Receipt
receipt = record { status = 1; block_number = 5; log_addresses = 7 ∷ [] }

abbrev chain : Chain
chain = record {
  dial = λ id. str_eq id "1";
  code_at = λ id a. some 10;
  transaction_receipt = λ id h. some receipt;
  is_pending = λ id h. some false;
  block_by_number =
      λ id n. response 200 (some (record { has_error = false; timestamp = some (some "0x64") }));
  hex_to_address = λ s. 7;
  hex_to_hash = λ s. 9;
  parse_int = λ s. some (pos 100);
}

abbrev target : TaskTargetData
target = record {
  job_id = 1;
  task_id = 3;
  task_definition_id = 5;
  target_chain_id = "1";
  target_contract_address = "0xab";
  target_function = "f";
  abi = "[]";
  arg_type = 1;
  arguments = [];
  dynamic_arguments_script_url = "";
  is_imua = false;
  script_storage = [];
  script_language = "";
}

abbrev job : ScheduleConditionJobData exact
job = record {
  job_id = 1;
  task_definition_id = 5;
  task_target_data = target;
  event_worker_data = record {
    expiration_time = 0;
    trigger_chain_id = "";
    trigger_contract_address = "";
    trigger_event = "";
  };
  condition_worker_data = record job_data { expiration_time = seconds 70000000000 };
}

abbrev notification : Notification exact
notification = record { trigger_tx_hash = ""; trigger_value = pos 5; triggered_at = 4 }

abbrev above_job : ScheduleConditionJobData exact
above_job = record job {
  condition_worker_data = record job_data { condition_type = "greater_than" };
}

greater_than_rejected_example :
    (evaluate_condition exact above_job.condition_worker_data (pos 5) ≡ ok true)
    × (validate_trigger chain (create_trigger_data_from_notification exact above_job notification)
        ≡ ok false)
greater_than_rejected_example =
    greater_than_rejected chain above_job notification (inl refl)
      ((omega arith, omega arith), (omega arith, omega arith), (omega arith, omega arith)) refl
      (omega arith) (omega arith)

in_range :
    All
      (λ n. IsInt64 n.trigger_value)
      (run exact decoder
        (start exact decoder job.condition_worker_data true true)
        events).notifications
unfolding run step start tick stop see_done check_condition fetch_value fetch_from_api
    extract_value_from_response extract_fallback parse_direct_value first_non_zero
    extract_value_by_key_path evaluate_condition
in_range =
    ((omega arith, omega arith), ((omega arith, omega arith), ((omega arith, omega arith), tt)))

notifications-validated_example :
    All
      (λ n.
        validate_trigger chain (create_trigger_data_from_notification exact job (as_notification n))
        ≡ ok true)
      (run exact decoder
        (start exact decoder job.condition_worker_data true true)
        events).notifications
notifications-validated_example =
    notifications-validated chain job decoder true true (inl refl) (inr (inl refl))
      (omega arith, omega arith) (omega arith, omega arith) events in_range

program : Unit {0}
unfolding create_trigger_data_from_notification get_block_timestamp validate_trigger without_receipt
    is_valid_condition_based_trigger is_valid_event_based_trigger is_valid_time_based_trigger
    sign_json_message verify_signature_from_json validate_manager_signature
    validate_performer_signature generate_proof stringify_ipfs_data validate_certificate
    without_proof validate_proof validate_proof_hash task_part unproved_data performer_ipfs_data
    validate_action validate_ipfs_data to_int64
program = tt

abbrev trigger : TaskTriggerData
unfolding program
trigger = create_trigger_data_from_notification exact job notification

abbrev task : SendTaskDataToKeeper
task = record {
  task_id = 3 ∷ [];
  performer_data = record { operator_id = 1; keeper_address = "0xke"; is_imua = false };
  target_data = target ∷ [];
  trigger_data = trigger ∷ [];
  scheduler_id = 2;
  manager_signature = "0x51";
}

abbrev action : PerformerActionData ℕ
action = record { action_tx_hash = "0x9"; details = 0 }

abbrev certificate : Certificate
certificate = record { raw = "cert"; not_before = 0; not_after = 10 }

abbrev proof : ProofData
proof = record {
  task_id = 3;
  proof_of_task = "e3b0";
  certificate_hash = "e3b0";
  certificate_timestamp = 5;
}

abbrev uploaded : IpfsData ℕ
uploaded = record {
  task_data = some task;
  action_data = some action;
  proof_data = some proof;
  performer_signature =
      some
        (record { task_id = 3; performer_signing_address = "0xpe"; performer_signature = "0x51" });
}

abbrev services : Services ℕ
services = record {
  marshal_ipfs_data = λ d. some "{}";
  lower_json_of_task = λ t. some "{}";
  lower_json_of_ipfs_data = λ d. some "{}";
  sha256_hex = λ s. "e3b0";
  sign_message = λ m k. some "0x51";
  verify_signature = λ m x a. some (str_eq x "0x51");
  manager_signing_address = "0xma";
  hex_decode = λ s. some s;
  fetch = λ s. some uploaded;
}

abbrev performer : Performer ℕ services
performer = record { consensus_address = "0xpe"; private_key_consensus = "key" }

abbrev around : Surroundings chain ℕ services
around = record {
  receipts = λ h. success receipt;
  pending = λ h. refused "unknown";
  connection = some (certificate ∷ []);
}

made :
    performer_ipfs_data ℕ services 5
      (some (certificate ∷ []))
      performer
      3
      task
      target
      trigger
      action
    ≡ ok uploaded
unfolding program
made = refl

validate_action-InTime_example : InTime chain target trigger (success receipt)
unfolding program
validate_action-InTime_example =
    validate_action-InTime chain target trigger (success receipt) (refused "unknown") refl

validate_ipfs_data_iff_example :
    (validate_ipfs_data chain ℕ services around uploaded ≡ ok true)
    ↔ IsAccepted chain ℕ services around uploaded
validate_ipfs_data_iff_example = validate_ipfs_data_iff chain ℕ services around uploaded

validate_ipfs_data-panics_example :
    validate_ipfs_data chain ℕ services around
      (without_signature chain ℕ services task action proof)
    ≡ panic
unfolding program
validate_ipfs_data-panics_example =
    validate_ipfs_data-panics chain ℕ services around task target trigger action proof certificate
      [] refl refl refl refl refl refl refl refl refl

hashes : (t : String) → str_eq (services.sha256_hex t) "" ≡ false
hashes t = refl

verifies :
    (m x : String)
    → services.sign_message m performer.private_key_consensus ≡ some x
    → (str_eq x "" ≡ false)
      × (services.verify_signature m x performer.consensus_address ≡ some true)
verifies m x h =
    subst
      (λ y.
        (str_eq y "" ≡ false)
        × (services.verify_signature m y performer.consensus_address ≡ some true))
      (some-eq h) (refl, refl)

validate_task-performer_example : validate_task chain ℕ services around "0x516d" ≡ ok true
unfolding program
validate_task-performer_example =
    validate_task-performer ℕ services performer 5 certificate [] 3 task target trigger action
      uploaded made chain around "{}" (certificate, []) "0x516d" "516d" "516d" refl refl refl refl
      refl refl refl refl refl refl hashes refl refl refl verifies
