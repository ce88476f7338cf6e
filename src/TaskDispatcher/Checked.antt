-- ===== src/TaskDispatcher/Checked.antt =====
-- Which tasks of a request pass the keepers' check of the manager's signature.
use triggerx_backend.Prelude.{
  ℕ, ◌<◌, ◌≡◌, ◌≢◌, ◌↔◌, refl, sym, ap, ◌∙◌, subst, String, Bool, true, false, Option, none, some,
  List, [], ◌∷◌, length, ltb, ltb→lt, str_eq, if◌then◌else◌, All, arith,
}
use triggerx_backend.Prelude.Results.{Result, ok, err, panic, ok-eq}
use triggerx_backend.Types.{PerformerData, SendTaskDataToKeeper, TaskTargetData, TaskTriggerData}
use triggerx_backend.TimeScheduler.Schedule.{SchedulerTaskRequest}
use triggerx_backend.Keeper.Data.{Services}
use triggerx_backend.Keeper.Signatures.{sign_json_message, validate_manager_signature}
use triggerx_backend.TaskDispatcher.Dispatcher.{
  DispatchError, StreamTask, stream_task, split_batch, added_single, hand_on, with_performer,
  with_first, get_performer_data, submit_task_from_scheduler,
}
use triggerx_backend.TaskDispatcher.Signed.{
  IsPart, validate_manager_signature-Verifies, Verifies-validate_manager_signature,
  split_from-IsPart,
}

All-map :
    {P Q : StreamTask → Type 0}
    → ((t : StreamTask) → P t → Q t)
    → (ts : List StreamTask) → All P ts
    → All Q ts
All-map f [] h = tt
All-map f (t ∷ ts) h = (f t h.0, All-map f ts h.1)

module _ (Details : Type 0) (services : Services Details) (signing_key : String)
    (takes : StreamTask → Bool) where
  open services use {lower_json_of_task, sign_message, verify_signature, manager_signing_address}

  signed-json :
      (o : Option String) (s : String)
      → sign_json_message Details services o signing_key ≡ some s
      → (m : String) × (o ≡ some m) × (sign_message m signing_key ≡ some s)
  unfolding sign_json_message
  signed-json none s h = cc
  signed-json (some m) s h = (m, refl, h)

  -- Passing the check comes to being the only task of the request.
  abbrev pub PassesAlone : SendTaskDataToKeeper → StreamTask → Type 0
  PassesAlone d t =
      (validate_manager_signature Details services (some t.send_task_data_to_keeper) ≡ ok true)
      ↔ (length d.task_id ≡ 1)

  module _
      (binds : (m m' s : String)
        → sign_message m signing_key ≡ some s
        → verify_signature m' s manager_signing_address ≡ some true
        → m' ≡ m)
      (accepts : (m s : String)
        → sign_message m signing_key ≡ some s
        → verify_signature m s manager_signing_address ≡ some true)
      (nonempty : (m s : String) → sign_message m signing_key ≡ some s → s ≢ "")
      (ids_in_json : (t u : SendTaskDataToKeeper) (m : String)
        → lower_json_of_task t ≡ some m
        → lower_json_of_task u ≡ some m
        → t.task_id ≡ u.task_id) where
    part-PassesAlone :
        (d : SendTaskDataToKeeper) (m s : String)
        → lower_json_of_task d ≡ some m
        → sign_message m signing_key ≡ some s
        → 1 < length d.task_id
        → (t : StreamTask) → IsPart s t
        → PassesAlone d t
    part-PassesAlone d m s j q many t (id, alone, same) = (
      λ h.
          let (m', j', v) =
            validate_manager_signature-Verifies Details services t.send_task_data_to_keeper h in
          let equal = binds m m' s q (
            subst (λ (x : String). verify_signature m' x manager_signing_address ≡ some true) same
              v) in
          let ids =
            ids_in_json (record t.send_task_data_to_keeper { manager_signature = "" }) d m
              (j' ∙ ap (λ (x : String). some x) equal) j in
          ap (λ (l : List ℕ). length l) (sym ids ∙ alone),
      λ h. absurd (omega (arith, h, many)),
    )

    single-PassesAlone :
        (d : SendTaskDataToKeeper) (m s : String) (is_mainnet : Bool) (first : TaskTargetData)
        → lower_json_of_task d ≡ some m
        → sign_message m signing_key ≡ some s
        → d.manager_signature ≡ ""
        → length d.task_id ≡ 1
        → PassesAlone d (stream_task is_mainnet first (record d { manager_signature = s }))
    single-PassesAlone d m s is_mainnet first j q e one = (
      λ h. one,
      λ h.
          Verifies-validate_manager_signature Details services (record d { manager_signature = s })
            (nonempty m s q)
            (
              m,
              ap (λ (x : String). lower_json_of_task (record d { manager_signature = x })) (sym e)
                  ∙ j,
              accepts m s q,
            ),
    )

    hand_on-PassesAlone :
        (is_mainnet : Bool) (first : TaskTargetData) (d : SendTaskDataToKeeper) (o : Option String)
        (ts : List StreamTask)
        → sign_json_message Details services (lower_json_of_task d) signing_key ≡ o
        → d.manager_signature ≡ ""
        → 0 < length d.task_id
        → hand_on Details services signing_key takes is_mainnet first d o ≡ ok ts
        → All (PassesAlone d) ts
    unfolding split_batch
    hand_on-PassesAlone is_mainnet first d none ts e none_yet some_id h = cc
    hand_on-PassesAlone is_mainnet first d (some s) ts e none_yet some_id h =
        let (m, j, q) = signed-json (lower_json_of_task d) s e in
        go m j q (ltb 1 (length d.task_id)) refl h
      where
        added :
            (b : Bool) (t : StreamTask)
            → PassesAlone d t
            → added_single b t ≡ ok ts
            → All (PassesAlone d) ts
        added true t p x = subst (All (PassesAlone d)) (ok-eq x) (p, tt)
        added false t p x = cc

        go :
            (m : String)
            → lower_json_of_task d ≡ some m
            → sign_message m signing_key ≡ some s
            → (b : Bool) → ltb 1 (length d.task_id) ≡ b
            → (if b
                then split_batch is_mainnet (record d { manager_signature = s })
                else added_single
                    (takes (stream_task is_mainnet first (record d { manager_signature = s })))
                    (stream_task is_mainnet first (record d { manager_signature = s })))
              ≡ ok ts
            → All (PassesAlone d) ts
        go m j q true many x =
            All-map (part-PassesAlone d m s j q (ltb→lt 1 (length d.task_id) many)) ts (
              split_from-IsPart is_mainnet (record d { manager_signature = s }) d.task_id
                d.target_data d.trigger_data ts x)
        go m j q false one x =
            added (takes (stream_task is_mainnet first (record d { manager_signature = s })))
              (stream_task is_mainnet first (record d { manager_signature = s }))
              (single-PassesAlone d m s is_mainnet first j q none_yet
                (ground (arith, some_id, one)))
              x

    -- Where a signature verifies for the message that was signed and no other, is not empty, and the
    -- JSON of tasks with different ids differs: a task that the dispatcher hands on for an
    -- unsigned request passes the keepers' check of the manager's signature exactly if it is the
    -- only task of the request. The tasks of a batch carry the batch's signature and fail.
    pub submit_task_from_scheduler-PassesAlone :
        (r : SchedulerTaskRequest) (ts : List StreamTask)
        → r.send_task_data_to_keeper.manager_signature ≡ ""
        → submit_task_from_scheduler Details services signing_key takes (some r) ≡ ok ts
        → All (PassesAlone r.send_task_data_to_keeper) ts
    unfolding submit_task_from_scheduler
    submit_task_from_scheduler-PassesAlone r ts none_yet h =
        go d.task_id refl d.trigger_data d.target_data h
      where
        d : SendTaskDataToKeeper
        d = r.send_task_data_to_keeper

        performed :
            (is_mainnet : Bool) (first : TaskTargetData) (o : Result DispatchError PerformerData)
            → 0 < length d.task_id
            → with_performer Details services signing_key takes is_mainnet first d o ≡ ok ts
            → All (PassesAlone d) ts
        performed is_mainnet first (ok p) n x =
            hand_on-PassesAlone is_mainnet first (record d { performer_data = p }) _ ts refl
              none_yet n x
        performed is_mainnet first (err e) n x = cc
        performed is_mainnet first panic n x = cc

        go :
            (ids : List ℕ)
            → d.task_id ≡ ids
            → (triggers : List TaskTriggerData) (targets : List TaskTargetData)
            → with_first Details services signing_key takes ids triggers targets d ≡ ok ts
            → All (PassesAlone d) ts
        go [] e triggers targets x = cc
        go (id ∷ ids) e [] targets x = cc
        go (id ∷ ids) e (y ∷ triggers) [] x = cc
        go (id ∷ ids) e (y ∷ triggers) (first ∷ targets) x =
            performed (str_eq first.target_chain_id "42161") first
              (get_performer_data first.is_imua (str_eq first.target_chain_id "42161"))
              (omega (arith, ap (λ (l : List ℕ). length l) e)) x
