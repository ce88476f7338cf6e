-- ===== src/TaskDispatcher/Dispatcher.antt =====
-- internal/taskdispatcher (taskdispatcher.go, health_client.go): a request is signed, given a performer
-- and split into its tasks. Whether the aggregator and the stream take a task is an argument.
use triggerx_backend.Prelude.{
  ℕ, String, Bool, true, false, Option, none, some, List, [], ◌∷◌, length, ltb, str_eq,
  if◌then◌else◌,
}
use triggerx_backend.Prelude.Results.{Result, ok, err, panic}
use triggerx_backend.Types.{PerformerData, SendTaskDataToKeeper, TaskTargetData, TaskTriggerData}
use triggerx_backend.TimeScheduler.Schedule.{SchedulerTaskRequest}
use triggerx_backend.Keeper.Data.{Services}
use triggerx_backend.Keeper.Signatures.{sign_json_message}

pub data DispatchError : Type 0 where
  nil_request missing_task_id missing_trigger_data missing_target_data no_performer signing_refused
        not_added :
      DispatchError

abbrev pub mainnet_performer : PerformerData
mainnet_performer = record {
  operator_id = 1002;
  keeper_address = "0x235813b36eea7e48b7069821a78c0bc8384a3c79";
  is_imua = false;
}

abbrev pub fallback_performers : List PerformerData
fallback_performers =
    record {
      operator_id = 2;
      keeper_address = "0x0a067a261c5F5e8C4c0b9137430b4FE1255EB62e";
      is_imua = false;
    }
    ∷ record {
      operator_id = 1;
      keeper_address = "0xcacce39134e3b9d5d9220d87fc546c6f0fb9cc37";
      is_imua = true;
    }
    ∷ []

abbrev pub same : Bool → Bool → Bool
same true b = b
same false true = false
same false false = true

-- The last performer of the kind wins.
abbrev pub filtered : Bool → List PerformerData → Option PerformerData → Option PerformerData
filtered imua [] found = found
filtered imua (p ∷ ps) found = filtered imua ps (if same p.is_imua imua then some p else found)

abbrev pub or_no_performer : Option PerformerData → Result DispatchError PerformerData
or_no_performer none = err no_performer
or_no_performer (some p) = ok p

unfoldable pub get_performer_data : Bool → Bool → Result DispatchError PerformerData
get_performer_data imua true = ok mainnet_performer
get_performer_data imua false = or_no_performer (filtered imua fallback_performers none)

pub record StreamTask : Type 0 where
  pub job_id : ℕ
  pub task_definition_id : ℕ
  pub retry_count : ℕ
  pub send_task_data_to_keeper : SendTaskDataToKeeper
  pub is_mainnet : Bool

abbrev pub stream_task : Bool → TaskTargetData → SendTaskDataToKeeper → StreamTask
stream_task is_mainnet target task = record {
  job_id = target.job_id;
  task_definition_id = target.task_definition_id;
  retry_count = 0;
  send_task_data_to_keeper = task;
  is_mainnet = is_mainnet;
}

-- The data of one task of a batch, with the batch's performer and signature.
abbrev pub individual :
    SendTaskDataToKeeper → ℕ → TaskTargetData → TaskTriggerData → SendTaskDataToKeeper
individual d id target trigger = record d {
  task_id = id ∷ [];
  target_data = target ∷ [];
  trigger_data = trigger ∷ [];
}

abbrev pub chained :
    StreamTask → Result DispatchError (List StreamTask) → Result DispatchError (List StreamTask)
chained t (ok ts) = ok (t ∷ ts)
chained t (err e) = err e
chained t panic = panic

-- The tasks of a batch, in order: an error of one is only logged, a missing target or trigger panics.
abbrev pub split_from :
    Bool
    → SendTaskDataToKeeper
    → List ℕ
    → List TaskTargetData
    → List TaskTriggerData
    → Result DispatchError (List StreamTask)
split_from is_mainnet d [] targets triggers = ok []
split_from is_mainnet d (id ∷ ids) [] triggers = panic
split_from is_mainnet d (id ∷ ids) (target ∷ targets) [] = panic
split_from is_mainnet d (id ∷ ids) (target ∷ targets) (trigger ∷ triggers) =
    chained (stream_task is_mainnet target (individual d id target trigger))
      (split_from is_mainnet d ids targets triggers)

unfoldable pub split_batch : Bool → SendTaskDataToKeeper → Result DispatchError (List StreamTask)
split_batch is_mainnet d = split_from is_mainnet d d.task_id d.target_data d.trigger_data

abbrev pub added_single : Bool → StreamTask → Result DispatchError (List StreamTask)
added_single true t = ok (t ∷ [])
added_single false t = err not_added

module _ (Details : Type 0) (services : Services Details) (signing_key : String)
    (takes : StreamTask → Bool) where
  open services use {lower_json_of_task}

  -- The tasks handed to the aggregator, where the call returns no error.
  abbrev pub hand_on :
      Bool
      → TaskTargetData
      → SendTaskDataToKeeper
      → Option String
      → Result DispatchError (List StreamTask)
  hand_on is_mainnet first d none = err signing_refused
  hand_on is_mainnet first d (some signature) =
      let signed = record d { manager_signature = signature } in
      let single = stream_task is_mainnet first signed in
      if ltb 1 (length d.task_id)
      then split_batch is_mainnet signed
      else added_single (takes single) single

  abbrev pub with_performer :
      Bool
      → TaskTargetData
      → SendTaskDataToKeeper
      → Result DispatchError PerformerData
      → Result DispatchError (List StreamTask)
  with_performer is_mainnet first d (ok p) =
      let chosen = record d { performer_data = p } in
      hand_on is_mainnet first chosen
        (sign_json_message Details services (lower_json_of_task chosen) signing_key)
  with_performer is_mainnet first d (err e) = err e
  with_performer is_mainnet first d panic = panic

  abbrev pub with_first :
      List ℕ
      → List TaskTriggerData
      → List TaskTargetData
      → SendTaskDataToKeeper
      → Result DispatchError (List StreamTask)
  with_first [] triggers targets d = err missing_task_id
  with_first (id ∷ ids) [] targets d = err missing_trigger_data
  with_first (id ∷ ids) (trigger ∷ triggers) [] d = err missing_target_data
  with_first (id ∷ ids) (trigger ∷ triggers) (first ∷ targets) d =
      let is_mainnet = str_eq first.target_chain_id "42161" in
      with_performer is_mainnet first d (get_performer_data first.is_imua is_mainnet)

  unfoldable pub submit_task_from_scheduler :
      Option SchedulerTaskRequest → Result DispatchError (List StreamTask)
  unfolding get_performer_data split_batch sign_json_message
  submit_task_from_scheduler none = err nil_request
  submit_task_from_scheduler (some r) =
      with_first r.send_task_data_to_keeper.task_id r.send_task_data_to_keeper.trigger_data
        r.send_task_data_to_keeper.target_data r.send_task_data_to_keeper
