-- ===== src/TaskMonitor/Kept.antt =====
-- The timeouts that the operations keep and clear.
use triggerx_backend.Prelude.{
  ℕ, ◌≡◌, ◌≢◌, refl, sym, ap, ◌∙◌, subst, Bool, true, false, Option, none, some, List, [], ◌∷◌,
  arith, ite, if_neg, ℕ_discrete, map, ◌==◌, if◌then◌else◌,
}
use triggerx_backend.Prelude.Maps.{contains}
use triggerx_backend.Prelude.Results.{Result, ok, err, panic, ok-eq}
use triggerx_backend.Prelude.Texts.{Text, text, text_eq}
use triggerx_backend.Prelude.Decimal.{format_int, format_int-injective}
use triggerx_backend.TaskMonitor.Redis.{
  Redis, RedisLaws, Cell, Cell-discrete, Value, written, all_written, zrem,
}
use triggerx_backend.TaskMonitor.Data.{
  TaskError, TaskStreamData, TaskJson, dispatched, index_key, timeouts_key, expiration_key,
  completed, failed,
}
use triggerx_backend.TaskMonitor.Index.{
  find_task_by_id, find_indexed, find_task_in_dispatched, with_id, first_id, scan_messages,
  scan_task, scan_recent, most_recent,
}
use triggerx_backend.TaskMonitor.Streams.{add_task_to_stream, add_encoded, added_task}
use triggerx_backend.TaskMonitor.Outcomes.{mark_task_completed, complete_found, after_completed}
use triggerx_backend.TaskMonitor.Leaves.{differ, written-here, Leaves, add_task_to_stream-Leaves}

pub completed-timeouts : completed ≢ timeouts_key
unfolding text_eq
completed-timeouts = differ completed timeouts_key refl

pub failed-timeouts : failed ≢ timeouts_key
unfolding text_eq
failed-timeouts = differ failed timeouts_key refl

pub dispatched-timeouts : dispatched ≢ timeouts_key
unfolding text_eq
dispatched-timeouts = differ dispatched timeouts_key refl

pub index-timeouts : index_key ≢ timeouts_key
unfolding text_eq
index-timeouts = differ index_key timeouts_key refl

pub expiration-timeouts : (stream : Text) → expiration_key stream ≢ timeouts_key
unfolding text_eq
expiration-timeouts stream = differ (expiration_key stream) timeouts_key refl

abbrev pub cleared : Bool → Option Value → Option Value
cleared true old = none
cleared false old = old

removed-once :
    (x id : ℕ) (old : Option Value)
    → written (some ((timeouts_key, format_int x), none)) (timeouts_key, format_int id) old
      ≡ ite (ℕ_discrete x id) none old
removed-once x id old =
    elim (ℕ_discrete x id)
      as (λ (d : Dec (x ≡ id)).
        written (some ((timeouts_key, format_int x), none)) (timeouts_key, format_int id) old
        ≡ ite d none old) [
          | yes e ↦
              ap
                (λ (n : ℕ).
                  written (some ((timeouts_key, format_int x), none)) (timeouts_key, format_int n)
                    old)
                (sym e)
              ∙ written-here (timeouts_key, format_int x) none old
          | no n ↦
              if_neg (Cell-discrete (timeouts_key, format_int x) (timeouts_key, format_int id))
                (λ q. n (format_int-injective x id (ap (λ (c : Cell). c.1) q))) none old
        ]

abbrev after_removals : List ℕ → ℕ → Option Value → Option Value
after_removals ids id old =
    all_written (map (λ x. zrem timeouts_key (format_int x)) ids) (timeouts_key, format_int id) old

none-written : (ids : List ℕ) (id : ℕ) → after_removals ids id none ≡ none
none-written [] id = refl
none-written (x ∷ ids) id =
    ap (after_removals ids id) (removed-once x id none ∙ same (ℕ_discrete x id))
    ∙ none-written ids id
  where
    same : (d : Dec (x ≡ id)) → ite {C = Option Value} d none none ≡ none
    same (yes e) = refl
    same (no n) = refl

pub zrem-written :
    (ids : List ℕ) (id : ℕ) (old : Option Value)
    → after_removals ids id old ≡ cleared (contains ℕ_discrete id ids) old
unfolding contains
zrem-written [] id old = refl
zrem-written (x ∷ ids) id old =
    ap (after_removals ids id) (removed-once x id old)
    ∙ go (ℕ_discrete x id) (none-written ids id) (zrem-written ids id old)
  where
    go :
        (d : Dec (x ≡ id))
        → after_removals ids id none ≡ none
        → after_removals ids id old ≡ cleared (contains ℕ_discrete id ids) old
        → after_removals ids id (ite d none old)
          ≡ cleared (ite d true (contains ℕ_discrete id ids)) old
    go (yes e) gone rest = gone
    go (no n) gone rest = rest

module _ {R : Type 0} (api : Redis R) (laws : RedisLaws api) (json : TaskJson) where
  -- The scan finds the task that it looks for.
  scan_messages-first_id :
      (id : ℕ) (ms : List (Option Text)) (t : TaskStreamData)
      → scan_messages api json id ms ≡ ok t
      → first_id t ≡ some id
  scan_messages-first_id id [] t e = cc
  scan_messages-first_id id (none ∷ ms) t e = scan_messages-first_id id ms t e
  scan_messages-first_id id (some m ∷ ms) t e =
      go (json.unmarshal m) e (scan_messages-first_id id ms t)
    where
      found :
          (u : TaskStreamData) (o : Option ℕ)
          → first_id u ≡ o
          → (elim o as (λ x. Result TaskError TaskStreamData) [
            | none ↦ panic
            | some first ↦ if first == id then ok u else scan_messages api json id ms
          ])
            ≡ ok t
          → (scan_messages api json id ms ≡ ok t → first_id t ≡ some id)
          → first_id t ≡ some id
      found u none q e rest = cc
      found u (some first) q e rest = here (first == id) refl e
        where
          here :
              (b : Bool)
              → (first == id) ≡ b
              → (if b then ok u else scan_messages api json id ms) ≡ ok t
              → first_id t ≡ some id
          here true s e = ap first_id (ok-eq (sym e)) ∙ q ∙ ap some (ground arith)
          here false s e = rest e

      go :
          (o : Option TaskStreamData)
          → scan_task api json id o (scan_messages api json id ms) ≡ ok t
          → (scan_messages api json id ms ≡ ok t → first_id t ≡ some id)
          → first_id t ≡ some id
      go none e rest = rest e
      go (some u) e rest = found u (first_id u) refl e rest

  add_task_to_stream-runs :
      (r : R) (now : ℕ) (stream : Text) (t : TaskStreamData) (first : ℕ)
      → first_id t ≡ some first
      → (add_task_to_stream api json r now stream t).1 ≢ panic
  unfolding add_task_to_stream
  add_task_to_stream-runs r now stream t first e = go (first_id t) e (json.marshal t)
    where
      added : (x : ℕ) (s : R × Option Text) → (added_task api json now stream (some x) s).1 ≢ panic
      added x (s, none) q = cc
      added x (s, some id) q = cc

      go :
          (o : Option ℕ)
          → o ≡ some first
          → (m : Option Text) → (add_encoded api json r now stream o m).1 ≢ panic
      go none q m p = cc
      go (some x) q none p = cc
      go (some x) q (some text) p = added x (api.xadd r stream text) p

  find_task_in_dispatched-first_id :
      (r : R) (id : ℕ) (t : TaskStreamData)
      → find_task_in_dispatched api json r id ≡ ok t
      → first_id t ≡ some id
  unfolding find_task_in_dispatched
  find_task_in_dispatched-first_id r id t e = go (api.xrange_all r dispatched) e
    where
      go :
          (o : Option (List (Option Text)))
          → scan_recent api json id o ≡ ok t
          → first_id t ≡ some id
      go none q = cc
      go (some ms) q = scan_messages-first_id id (most_recent 1000 ms) t q

  -- A task that the index does not know, but that is among the last messages of the dispatched
  -- stream, is marked completed without an error, and no entry of the timeouts changes, whatever
  -- Redis answers: that of the task, if there is one, stays.
  pub mark_task_completed-scanned :
      (r : R) (now id : ℕ) (t : TaskStreamData)
      → api.hget r index_key (format_int id) ≡ some none
      → find_task_in_dispatched api json r id ≡ ok t
      → ((mark_task_completed api json r now id).1 ≡ ok tt)
        × Leaves api laws timeouts_key r (mark_task_completed api json r now id).0
  unfolding mark_task_completed find_task_by_id
  mark_task_completed-scanned r now id t unknown scanned =
      let found = ap (find_indexed api json r id) unknown ∙ ap (with_id api json []) scanned in
      subst
        (λ (x : Result TaskError (TaskStreamData × Text)).
          ((complete_found api json r now id x).1 ≡ ok tt)
          × Leaves api laws timeouts_key r (complete_found api json r now id x).0)
        (sym found)
        (go _
          (add_task_to_stream-Leaves api laws json timeouts_key r now completed _ completed-timeouts
            (expiration-timeouts completed))
          (add_task_to_stream-runs r now completed _ id
            (find_task_in_dispatched-first_id r id t scanned)))
    where
      go :
          (s : R × Result TaskError (Unit {0}))
          → Leaves api laws timeouts_key r s.0
          → s.1 ≢ panic
          → ((after_completed api json id [] s).1 ≡ ok tt)
            × Leaves api laws timeouts_key r (after_completed api json id [] s).0
      go (s, ok done) h n = (refl, h)
      go (s, err e) h n = (refl, h)
      go (s, panic) h n = absurd (n refl)
