-- ===== src/TaskDispatcher/Tests.antt =====
-- A batch of two, under a signature that is the message itself.
use triggerx_backend.Prelude.{
  ℕ, ◌≡◌, ◌≢◌, refl, sym, ap, ◌∙◌, String, Bool, true, false, Option, none, some, some-eq, List, [],
  ◌∷◌, ite, str_eq, str_eq_iff, String-discrete, ℕ_discrete, All, map,
}
use triggerx_backend.Prelude.Texts.{Text-discrete}
use triggerx_backend.Types.{SendTaskDataToKeeper}
use triggerx_backend.TimeScheduler.Schedule.{
  SchedulerTaskRequest, ScheduleTimeTaskData, request_of, target_data, trigger_data,
}
use triggerx_backend.TimeScheduler.Tests.{tasks}
use triggerx_backend.Keeper.Data.{Services}
use triggerx_backend.Keeper.Signatures.{sign_json_message}
use triggerx_backend.TaskDispatcher.Dispatcher.{
  StreamTask, stream_task, individual, submit_task_from_scheduler, get_performer_data, split_batch,
}
use triggerx_backend.TaskDispatcher.Checked.{PassesAlone, submit_task_from_scheduler-PassesAlone}

-- The JSON of the two lists of ids that occur.
abbrev json_of_ids : List ℕ → Option String
json_of_ids ids =
    ite (Text-discrete ids (7 ∷ [])) (some "one")
      (ite (Text-discrete ids (7 ∷ 8 ∷ [])) (some "two") none)

abbrev self_signed : String → Option String
self_signed m = ite (String-discrete m "") none (some m)

abbrev services : Services ℕ
services = record {
  marshal_ipfs_data = λ d. some "{}";
  lower_json_of_task = λ t. json_of_ids t.task_id;
  lower_json_of_ipfs_data = λ d. some "{}";
  sha256_hex = λ s. "e3b0";
  sign_message = λ m k. self_signed m;
  verify_signature = λ m x a. some (str_eq m x);
  manager_signing_address = "0xma";
  hex_decode = λ s. some s;
  fetch = λ s. none;
}

self_signed-eq : (m s : String) → self_signed m ≡ some s → (m ≡ s) × (s ≢ "")
self_signed-eq m s = go (String-discrete m "")
  where
    go : (d : Dec (m ≡ "")) → ite d none (some m) ≡ some s → (m ≡ s) × (s ≢ "")
    go (yes e) h = cc
    go (no n) h = (some-eq h, λ q. n (some-eq h ∙ q))

json_of_ids-eq :
    (l k : List ℕ) (m : String) → json_of_ids l ≡ some m → json_of_ids k ≡ some m → l ≡ k
json_of_ids-eq l k m =
    go (Text-discrete l (7 ∷ [])) (Text-discrete l (7 ∷ 8 ∷ [])) (Text-discrete k (7 ∷ []))
      (Text-discrete k (7 ∷ 8 ∷ []))
  where
    differ : some "one" ≡ some m → some "two" ≡ some m → ⊥
    differ a b = different (some-eq (a ∙ sym b))
      where
        different : ◌≢◌ {A = String} "one" "two"
        different q = unlike ((str_eq_iff "one" "two").1 q)
          where
            unlike : str_eq "one" "two" ≡ true → ⊥
            unlike e = cc

    go :
        (a : Dec (l ≡ 7 ∷ [])) (b : Dec (l ≡ 7 ∷ 8 ∷ [])) (c : Dec (k ≡ 7 ∷ []))
        (d : Dec (k ≡ 7 ∷ 8 ∷ []))
        → ite a (some "one") (ite b (some "two") none) ≡ some m
        → ite c (some "one") (ite d (some "two") none) ≡ some m
        → l ≡ k
    go (yes a) b (yes c) d x y = a ∙ sym c
    go (yes a) b (no c) (yes d) x y = absurd (differ x y)
    go (yes a) b (no c) (no d) x y = cc
    go (no a) (yes b) (yes c) d x y = absurd (differ y x)
    go (no a) (yes b) (no c) (yes d) x y = b ∙ sym d
    go (no a) (yes b) (no c) (no d) x y = cc
    go (no a) (no b) c d x y = cc

abbrev batch : SchedulerTaskRequest
batch = request_of 1 tasks

str_eq-same : (m' m s : String) → self_signed m ≡ some s → some (str_eq m' s) ≡ some true → m' ≡ m
str_eq-same m' m s q h = (str_eq_iff m' s).0 (some-eq h) ∙ sym (self_signed-eq m s q).0

abbrev signed_batch : SendTaskDataToKeeper
signed_batch = record batch.send_task_data_to_keeper {
  performer_data = record {
    operator_id = 1;
    keeper_address = "0xcacce39134e3b9d5d9220d87fc546c6f0fb9cc37";
    is_imua = true;
  };
  manager_signature = "two";
}

abbrev part : ScheduleTimeTaskData → StreamTask
part t =
    stream_task false (target_data t)
      (individual signed_batch t.task_id (target_data t) (trigger_data t))

abbrev handed_on : List StreamTask
handed_on = map part tasks

-- A batch of two: both tasks fail the check.
submit_task_from_scheduler-PassesAlone_example :
    All (PassesAlone ℕ services "key" (λ t. true) batch.send_task_data_to_keeper) handed_on
unfolding submit_task_from_scheduler get_performer_data split_batch sign_json_message Text-discrete
    ℕ_discrete String-discrete
submit_task_from_scheduler-PassesAlone_example =
    submit_task_from_scheduler-PassesAlone ℕ services "key" (λ t. true)
      (λ m m' s q h. str_eq-same m' m s q h)
      (λ m s q. ap (λ (b : Bool). some b) ((str_eq_iff m s).1 (self_signed-eq m s q).0))
      (λ m s q. (self_signed-eq m s q).1) (λ t u m x y. json_of_ids-eq t.task_id u.task_id m x y)
      batch handed_on refl refl
