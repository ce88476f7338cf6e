-- ===== src/TimeScheduler/Submitted.antt =====
-- What a poll submits.
use triggerx_backend.Prelude.{
  ℕ, suc, ◌≤◌, ◌<◌, ◌≡◌, refl, sym, ap, ◌∙◌, Bool, true, false, not, Option, none, some, List, [],
  ◌∷◌, ◌++◌, map, length, ltb, if◌then◌else◌, All, All-append, arith,
}
use triggerx_backend.TimeScheduler.Schedule.{
  ScheduleTimeTaskData, SchedulerTaskRequest, valid, unless_empty, process_batch, batches, of_kind,
  requests_of, both, poll_and_schedule_tasks,
}
use triggerx_backend.TimeScheduler.Batches.{concat, batches-AreBatches, batches-zero, drop-none}

abbrev pub ids : SchedulerTaskRequest → List ℕ
ids r = r.send_task_data_to_keeper.task_id

abbrev pub task_ids : List ScheduleTimeTaskData → List ℕ
task_ids = map (λ t. t.task_id)

abbrev pub all_ids : List SchedulerTaskRequest → List ℕ
all_ids [] = []
all_ids (r ∷ rs) = ids r ++ all_ids rs

-- A request for at least one task and at most so many.
abbrev pub Fits : ℕ → SchedulerTaskRequest → Type 0
Fits size r = (0 < length (ids r)) × (length (ids r) ≤ size)

append_assoc : (a b c : List ℕ) → (a ++ b) ++ c ≡ a ++ (b ++ c)
append_assoc [] b c = refl
append_assoc (x ∷ a) b c = ap (λ (t : List ℕ). x ∷ t) (append_assoc a b c)

all_ids-append : (rs ss : List SchedulerTaskRequest) → all_ids (rs ++ ss) ≡ all_ids rs ++ all_ids ss
all_ids-append [] ss = refl
all_ids-append (r ∷ rs) ss =
    ap (λ (t : List ℕ). ids r ++ t) (all_ids-append rs ss)
    ∙ sym (append_assoc (ids r) (all_ids rs) (all_ids ss))

valid-append :
    (now : ScheduleTimeTaskData → ℕ) (ts us : List ScheduleTimeTaskData)
    → task_ids (valid now (ts ++ us)) ≡ task_ids (valid now ts) ++ task_ids (valid now us)
valid-append now [] us = refl
valid-append now (t ∷ ts) us = go (ltb t.expiration_time (now t)) (valid-append now ts us)
  where
    go :
        (b : Bool)
        → task_ids (valid now (ts ++ us)) ≡ task_ids (valid now ts) ++ task_ids (valid now us)
        → task_ids (if b then valid now (ts ++ us) else t ∷ valid now (ts ++ us))
          ≡ task_ids (if b then valid now ts else t ∷ valid now ts) ++ task_ids (valid now us)
    go true h = h
    go false h = ap (λ (l : List ℕ). t.task_id ∷ l) h

length-valid :
    (now : ScheduleTimeTaskData → ℕ) (ts : List ScheduleTimeTaskData)
    → length (valid now ts) ≤ length ts
length-valid now [] = omega arith
length-valid now (t ∷ ts) = ground (arith, length-valid now ts)

length-of_kind :
    (imua : Bool) (ts : List ScheduleTimeTaskData) → length (of_kind imua ts) ≤ length ts
length-of_kind imua [] = omega arith
length-of_kind imua (t ∷ ts) = ground (arith, length-of_kind imua ts)

length-task_ids : (ts : List ScheduleTimeTaskData) → length (task_ids ts) ≡ length ts
length-task_ids [] = refl
length-task_ids (t ∷ ts) = ap suc (length-task_ids ts)

all_ids-unless_empty :
    (scheduler : ℕ) (ts : List ScheduleTimeTaskData)
    → all_ids (unless_empty scheduler ts) ≡ task_ids ts
all_ids-unless_empty scheduler [] = refl
all_ids-unless_empty scheduler (t ∷ ts) = append_nil (task_ids (t ∷ ts))
  where
    append_nil : (l : List ℕ) → l ++ [] ≡ l
    append_nil [] = refl
    append_nil (x ∷ l) = ap (λ (t : List ℕ). x ∷ t) (append_nil l)

unless_empty-Fits :
    (size scheduler : ℕ) (ts : List ScheduleTimeTaskData)
    → length ts ≤ size
    → All (Fits size) (unless_empty scheduler ts)
unless_empty-Fits size scheduler [] h = tt
unless_empty-Fits size scheduler (t ∷ ts) h =
    ((omega arith, omega (arith, length-task_ids ts, h)), tt)

all_ids-requests_of :
    (scheduler : ℕ) (now : ScheduleTimeTaskData → ℕ) (bs : List (List ScheduleTimeTaskData))
    → all_ids (requests_of scheduler now bs) ≡ task_ids (valid now (concat bs))
unfolding process_batch
all_ids-requests_of scheduler now [] = refl
all_ids-requests_of scheduler now (b ∷ bs) =
    all_ids-append (process_batch scheduler now b) (requests_of scheduler now bs)
    ∙ ap (λ (t : List ℕ). t ++ all_ids (requests_of scheduler now bs))
        (all_ids-unless_empty scheduler (valid now b))
    ∙ ap (λ (t : List ℕ). task_ids (valid now b) ++ t) (all_ids-requests_of scheduler now bs)
    ∙ sym (valid-append now b (concat bs))

requests_of-Fits :
    (size scheduler : ℕ) (now : ScheduleTimeTaskData → ℕ) (bs : List (List ScheduleTimeTaskData))
    → All (λ (b : List ScheduleTimeTaskData). length b ≤ size) bs
    → All (Fits size) (requests_of scheduler now bs)
unfolding process_batch
requests_of-Fits size scheduler now [] h = tt
requests_of-Fits size scheduler now (b ∷ bs) h =
    All-append (Fits size) (process_batch scheduler now b) (requests_of scheduler now bs)
      (unless_empty-Fits size scheduler (valid now b) (omega (arith, length-valid now b, h.0)))
      (requests_of-Fits size scheduler now bs h.1)

-- With a positive batch size and as much fuel as there are tasks, a poll ends. It submits every task
-- that has not expired when it is looked at once, the others first and then those of Imua, in their order, in requests
-- of at least one task and at most the batch size.
pub poll_and_schedule_tasks-all_ids :
    (fuel scheduler size : ℕ) (now : ScheduleTimeTaskData → ℕ) (tasks : List ScheduleTimeTaskData)
    → 0 < size
    → length tasks ≤ fuel
    → (rs : List SchedulerTaskRequest) × (poll_and_schedule_tasks fuel scheduler size now
          (some tasks)
        ≡ some rs)
      × (all_ids rs
          ≡ task_ids (valid now (of_kind false tasks)) ++ task_ids (valid now (of_kind true tasks)))
      × All (Fits size) rs
unfolding poll_and_schedule_tasks
poll_and_schedule_tasks-all_ids fuel scheduler size now tasks h f =
    let (bs, q, c) =
      batches-AreBatches fuel size 0 (of_kind false tasks) h
        (omega (arith, f, length-of_kind false tasks)) in
    let (ds, r, d) =
      batches-AreBatches fuel size 0 (of_kind true tasks) h
        (omega (arith, f, length-of_kind true tasks)) in
    (
      requests_of scheduler now bs ++ requests_of scheduler now ds,
      rw (q, r) refl,
      all_ids-append (requests_of scheduler now bs) (requests_of scheduler now ds)
          ∙ ap (λ (l : List ℕ). l ++ all_ids (requests_of scheduler now ds))
              (all_ids-requests_of scheduler now bs
                ∙ ap (λ (l : List ScheduleTimeTaskData). task_ids (valid now l))
                    (c.0 ∙ drop-none (of_kind false tasks)))
          ∙ ap (λ (l : List ℕ). task_ids (valid now (of_kind false tasks)) ++ l)
              (all_ids-requests_of scheduler now ds
                ∙ ap (λ (l : List ScheduleTimeTaskData). task_ids (valid now l))
                    (d.0 ∙ drop-none (of_kind true tasks))),
      All-append (Fits size) (requests_of scheduler now bs) (requests_of scheduler now ds)
          (requests_of-Fits size scheduler now bs c.1) (requests_of-Fits size scheduler now ds d.1),
    )

-- With a batch size of zero a poll that finds a task never ends, whatever fuel its loop is given.
pub poll_and_schedule_tasks-endless :
    (fuel scheduler : ℕ) (now : ScheduleTimeTaskData → ℕ) (t : ScheduleTimeTaskData)
    (ts : List ScheduleTimeTaskData)
    → poll_and_schedule_tasks fuel scheduler 0 now (some (t ∷ ts)) ≡ none
unfolding poll_and_schedule_tasks
poll_and_schedule_tasks-endless fuel scheduler now t ts = go t.is_imua
  where
    second : (o : Option (List (List ScheduleTimeTaskData))) → both scheduler now o none ≡ none
    second none = refl
    second (some bs) = refl

    go :
        (b : Bool)
        → both scheduler now
            (batches fuel 0 0 (if not b then t ∷ of_kind false ts else of_kind false ts))
            (batches fuel 0 0 (if b then t ∷ of_kind true ts else of_kind true ts))
          ≡ none
    go true =
        ap
          (λ (o : Option (List (List ScheduleTimeTaskData))).
            both scheduler now (batches fuel 0 0 (of_kind false ts)) o)
          (batches-zero fuel t (of_kind true ts))
        ∙ second (batches fuel 0 0 (of_kind false ts))
    go false = rw (batches-zero fuel t (of_kind false ts)) refl
