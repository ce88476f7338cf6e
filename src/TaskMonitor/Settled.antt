-- ===== src/TaskMonitor/Settled.antt =====
-- A task that the index knows is marked completed: what Redis holds afterwards.
use triggerx_backend.Prelude.{
  ℕ, ◌≡◌, ◌≢◌, refl, sym, ap, ◌∙◌, subst, Bool, true, false, Option, none, some, List, ◌∷◌,
}
use triggerx_backend.Prelude.Results.{Result, ok, err, panic}
use triggerx_backend.Prelude.Texts.{Text, text, text_eq}
use triggerx_backend.Prelude.Decimal.{format_int}
use triggerx_backend.TaskMonitor.Redis.{Redis, RedisLaws, Command, zrem}
use triggerx_backend.TaskMonitor.Data.{
  TaskError, TaskStreamData, TaskJson, dispatched, index_key, timeouts_key, expiration_key,
  completed,
}
use triggerx_backend.TaskMonitor.Index.{find_task_by_id, find_indexed, with_id, first_id}
use triggerx_backend.TaskMonitor.Streams.{
  add_task_to_stream, ack_task_processed, add_encoded, added_task,
}
use triggerx_backend.TaskMonitor.Index.{remove_task_index}
use triggerx_backend.TaskMonitor.Outcomes.{mark_task_completed, complete_found, after_completed}
use triggerx_backend.TaskMonitor.Leaves.{
  differ, written-here, Leaves, Leaves-trans, ack_task_processed-Leaves,
}
use triggerx_backend.TaskMonitor.Redis.{message, xack, xdel, hdel}
use triggerx_backend.TaskMonitor.Outcomes.{forget_task, processors}
use triggerx_backend.TaskMonitor.Streams.{acknowledged, ack_task_processed_with_delete}
use triggerx_backend.TaskMonitor.Expiration.{remove_task_timeout}
use triggerx_backend.TaskMonitor.Index.{get_task_by_message_id, first_message, decoded, logged}
use triggerx_backend.TaskMonitor.Kept.{index-timeouts, dispatched-timeouts, completed-timeouts}
use triggerx_backend.TaskMonitor.Leaves.{send-Leaves, add_message_expiration-Leaves}

index-dispatched : index_key ≢ dispatched
unfolding text_eq
index-dispatched = differ index_key dispatched refl

index-completed : index_key ≢ completed
unfolding text_eq
index-completed = differ index_key completed refl

dispatched-completed : dispatched ≢ completed
unfolding text_eq
dispatched-completed = differ dispatched completed refl

expiration-completed : (stream : Text) → expiration_key stream ≢ completed
unfolding text_eq
expiration-completed stream = differ (expiration_key stream) completed refl

module _ {R : Type 0} (api : Redis R) (laws : RedisLaws api) (json : TaskJson)
    (confirms : (s : R) (m : Command) → (api.send s m).1 ≡ true) where
  ack_task_processed-deletes :
      (r : R) (stream group id : Text)
      → ((ack_task_processed api r stream group id).1 ≡ ok tt)
        × (laws.look (ack_task_processed api r stream group id).0 (stream, id) ≡ none)
  unfolding ack_task_processed ack_task_processed_with_delete
  ack_task_processed-deletes r stream group id =
      go (api.send r (xack stream group id)) (confirms r (xack stream group id))
    where
      go :
          (s : R × Bool)
          → s.1 ≡ true
          → ((acknowledged api s stream id true).1 ≡ ok tt)
            × (laws.look (acknowledged api s stream id true).0 (stream, id) ≡ none)
      go (s, false) q = cc
      go (s, true) q = (
        refl,
        laws.sent _ (xdel stream id) (stream, id) (confirms _ (xdel stream id))
            ∙ written-here (stream, id) none _,
      )

  -- Index entry, timeout and message are gone.
  abbrev pub Forgotten : ℕ → Text → R → Type 0
  Forgotten id entry r =
      (laws.look r (dispatched, entry) ≡ none)
      × (laws.look r (index_key, format_int id) ≡ none)
      × (laws.look r (timeouts_key, format_int id) ≡ none)

  forget_task-Forgotten :
      (id : ℕ) (entry : Text) (s : R × Result TaskError (Unit {0}))
      → s.1 ≡ ok tt
      → laws.look s.0 (dispatched, entry) ≡ none
      → Forgotten id entry (forget_task api json id s)
  unfolding remove_task_index remove_task_timeout
  forget_task-Forgotten id entry (r, ok done) q gone = (
    send-Leaves api laws dispatched _ _ (timeouts_key, format_int id) none refl
          (λ e. dispatched-timeouts (sym e)) entry
        ∙ send-Leaves api laws dispatched r _ (index_key, format_int id) none refl index-dispatched
            entry
        ∙ gone,
    send-Leaves api laws index_key _ _ (timeouts_key, format_int id) none refl
          (λ e. index-timeouts (sym e)) (format_int id)
        ∙ laws.sent r (hdel index_key (format_int id)) (index_key, format_int id) (confirms r _)
        ∙ written-here (index_key, format_int id) none _,
    laws.sent _ (zrem timeouts_key (format_int id)) (timeouts_key, format_int id) (confirms _ _)
        ∙ written-here (timeouts_key, format_int id) none _,
  )
  forget_task-Forgotten id entry (r, err e) q gone = cc
  forget_task-Forgotten id entry (r, panic) q gone = cc

  forget_task-completed :
      (id : ℕ) (s : R × Result TaskError (Unit {0}))
      → Leaves api laws completed s.0 (forget_task api json id s)
  unfolding remove_task_index remove_task_timeout
  forget_task-completed id (r, ok done) =
      Leaves-trans api laws completed r _ _
        (send-Leaves api laws completed r _ (index_key, format_int id) none refl index-completed)
        (send-Leaves api laws completed _ _ (timeouts_key, format_int id) none refl
          (λ e. completed-timeouts (sym e)))
  forget_task-completed id (r, err e) = λ m. refl
  forget_task-completed id (r, panic) = λ m. refl

  add_completed :
      (r : R) (now : ℕ) (t : TaskStreamData) (first : ℕ) (text id : Text)
      → first_id t ≡ some first
      → json.marshal t ≡ some text
      → (api.xadd r completed text).1 ≡ some id
      → ((add_task_to_stream api json r now completed t).1 ≡ ok tt)
        × (laws.look (add_task_to_stream api json r now completed t).0 (completed, id)
            ≡ some (message (some text)))
  unfolding add_task_to_stream
  add_completed r now t first text id e m x =
      subst (λ (o : Option ℕ). Added (add_encoded api json r now completed o (json.marshal t)))
        (sym e)
        (subst (λ (u : Option Text). Added (add_encoded api json r now completed (some first) u))
          (sym m) (added (api.xadd r completed text) x (laws.added r completed text id x)))
    where
      Added : R × Result TaskError (Unit {0}) → Type 0
      Added s = (s.1 ≡ ok tt) × (laws.look s.0 (completed, id) ≡ some (message (some text)))

      added :
          (s : R × Option Text)
          → s.1 ≡ some id
          → laws.look s.0 (completed, id) ≡ some (message (some text))
          → ((added_task api json now completed (some first) s).1 ≡ ok tt)
            × (laws.look (added_task api json now completed (some first) s).0 (completed, id)
                ≡ some (message (some text)))
      added (s, none) q h = cc
      added (s, some i) q h = (
        refl,
        add_message_expiration-Leaves api laws completed s now completed i _
              (expiration-completed completed) id
            ∙ h,
      )

  find_task_by_id-indexed :
      (r : R) (id first x : ℕ) (entry text : Text) (ms : List (Option Text)) (t : TaskStreamData)
      → api.hget r index_key (format_int id) ≡ some (some (x ∷ entry))
      → api.xrange r dispatched (x ∷ entry) ≡ some (some text ∷ ms)
      → json.unmarshal text ≡ some t
      → first_id t ≡ some first
      → find_task_by_id api json r id ≡ ok (t, x ∷ entry)
  unfolding find_task_by_id get_task_by_message_id
  find_task_by_id-indexed r id first x entry text ms t index read decodes ids =
      ap (find_indexed api json r id) index
      ∙ ap
          (λ (o : Option (List (Option Text))).
            with_id api json (x ∷ entry) (first_message api json o))
          read
      ∙ ap (λ (o : Option TaskStreamData). with_id api json (x ∷ entry) (decoded api json o))
          decodes
      ∙ ap (λ (o : Option ℕ). with_id api json (x ∷ entry) (logged o (ok t))) ids

  -- Where Redis confirms every command: if the index names a message of the dispatched stream that
  -- holds a task with ids, marking it completed succeeds; then the message, the entry of the index
  -- and the timeout are gone, and the completed stream holds the task with its time of completion
  -- under the id that Redis has given.
  pub mark_task_completed-Forgotten :
      (r : R) (now id first x : ℕ) (entry text text' new : Text) (ms : List (Option Text))
      (t : TaskStreamData)
      → api.hget r index_key (format_int id) ≡ some (some (x ∷ entry))
      → api.xrange r dispatched (x ∷ entry) ≡ some (some text ∷ ms)
      → json.unmarshal text ≡ some t
      → first_id t ≡ some first
      → json.marshal (record t { completed_at = some now }) ≡ some text'
      → (api.xadd r completed text').1 ≡ some new
      → ((mark_task_completed api json r now id).1 ≡ ok tt)
        × Forgotten id (x ∷ entry) (mark_task_completed api json r now id).0
        × (laws.look (mark_task_completed api json r now id).0 (completed, new)
            ≡ some (message (some text')))
  unfolding mark_task_completed
  mark_task_completed-Forgotten r now id first x entry text text' new ms t index read decodes ids
        encodes adds =
      subst
        (λ (o : Result TaskError (TaskStreamData × Text)).
          Done (complete_found api json r now id o))
        (sym (find_task_by_id-indexed r id first x entry text ms t index read decodes ids))
        (go _ (
          add_completed r now (record t { completed_at = some now }) first text' new ids encodes
            adds))
    where
      Done : R × Result TaskError (Unit {0}) → Type 0
      Done s =
          (s.1 ≡ ok tt)
          × Forgotten id (x ∷ entry) s.0
          × (laws.look s.0 (completed, new) ≡ some (message (some text')))

      go :
          (s : R × Result TaskError (Unit {0}))
          → (s.1 ≡ ok tt) × (laws.look s.0 (completed, new) ≡ some (message (some text')))
          → Done (after_completed api json id (x ∷ entry) s)
      go (s, ok done) (q, h) =
          let (acked, gone) = ack_task_processed-deletes s dispatched processors (x ∷ entry) in
          (
            refl,
            forget_task-Forgotten id (x ∷ entry) _ acked gone,
            forget_task-completed id _ new
                ∙ ack_task_processed-Leaves api laws completed s dispatched processors (x ∷ entry)
                    dispatched-completed (expiration-completed dispatched) new
                ∙ h,
          )
      go (s, err e) (q, h) = cc
      go (s, panic) (q, h) = cc
