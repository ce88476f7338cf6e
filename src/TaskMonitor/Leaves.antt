-- ===== src/TaskMonitor/Leaves.antt =====
-- Which keys an operation of the task monitor leaves as they are, whether or not Redis confirms.
use triggerx_backend.Prelude.{
  ℕ, ◌+◌, ◌≡◌, ◌≢◌, refl, sym, ap, ◌∙◌, Bool, true, false, Option, none, some, if_neg, if_pos,
  Bool-cases, inl, inr, false≢true,
}
use triggerx_backend.Prelude.Texts.{Text, text_eq, text_eq_refl}
use triggerx_backend.Prelude.Decimal.{format_int}
use triggerx_backend.TaskMonitor.Redis.{
  Redis, RedisLaws, Command, Cell, Cell-discrete, Value, effect, written, xack, hdel, zadd,
}
use triggerx_backend.TaskMonitor.Data.{TaskStreamData, TaskJson, index_key, expiration_key, hour}
use triggerx_backend.TaskMonitor.Expiration.{
  add_message_expiration, remove_message_expiration, member_of, add_score,
}
use triggerx_backend.TaskMonitor.Index.{first_id, remove_task_index}
use triggerx_backend.TaskMonitor.Streams.{
  add_task_to_stream, add_encoded, added_task, ack_task_processed, ack_task_processed_with_delete,
  acknowledged,
}

pub differ : (a b : Text) → text_eq a b ≡ false → a ≢ b
differ a b e q = false≢true (sym e ∙ sym (ap (text_eq a) q) ∙ text_eq_refl a)

pub written-elsewhere :
    (c x : Cell) (new old : Option Value) → c.0 ≢ x.0 → written (some (c, new)) x old ≡ old
written-elsewhere c x new old n =
    if_neg (Cell-discrete c x) (λ q. n (ap (λ (y : Cell). y.0) q)) new old

pub written-here : (c : Cell) (new old : Option Value) → written (some (c, new)) c old ≡ new
written-here c new old = if_pos (Cell-discrete c c) refl new old

module _ {R : Type 0} (api : Redis R) (laws : RedisLaws api) where
  -- No cell of the key differs.
  abbrev pub Leaves : Text → R → R → Type 0
  Leaves key r r' = (m : Text) → laws.look r' (key, m) ≡ laws.look r (key, m)

  pub Leaves-trans : (key : Text) (r s t : R) → Leaves key r s → Leaves key s t → Leaves key r t
  Leaves-trans key r s t a b m = b m ∙ a m

  pub send-Leaves :
      (key : Text) (r : R) (m : Command) (c : Cell) (v : Option Value)
      → effect m ≡ some (c, v)
      → c.0 ≢ key
      → Leaves key r (api.send r m).0
  send-Leaves key r m c v e n x =
      let other =
        ap (λ (w : Option (Cell × Option Value)). written w (key, x) (laws.look r (key, x))) e
        ∙ written-elsewhere c (key, x) v (laws.look r (key, x)) n in
      elim (Bool-cases (api.send r m).1) [
        | inl y ↦ laws.sent r m (key, x) y ∙ other
        | inr y ↦ elim (laws.not_sent r m (key, x) y) [ inl same ↦ same | inr done ↦ done ∙ other ]
      ]

  pub quiet-Leaves :
      (key : Text) (r : R) (m : Command) → effect m ≡ none → Leaves key r (api.send r m).0
  quiet-Leaves key r m e x =
      let same =
        ap (λ (w : Option (Cell × Option Value)). written w (key, x) (laws.look r (key, x))) e in
      elim (Bool-cases (api.send r m).1) [
        | inl y ↦ laws.sent r m (key, x) y ∙ same
        | inr y ↦ elim (laws.not_sent r m (key, x) y) [ inl q ↦ q | inr done ↦ done ∙ same ]
      ]

  pub remove_task_index-Leaves :
      (json : TaskJson) (key : Text) (r : R) (id : ℕ)
      → index_key ≢ key
      → Leaves key r (remove_task_index api json r id).0
  unfolding remove_task_index
  remove_task_index-Leaves json key r id n =
      send-Leaves key r (hdel index_key (format_int id)) (index_key, format_int id) none refl n

  pub add_message_expiration-Leaves :
      (key : Text) (r : R) (now : ℕ) (stream id : Text) (ttl : ℕ)
      → expiration_key stream ≢ key
      → Leaves key r (add_message_expiration api r now stream id ttl).0
  unfolding add_message_expiration
  add_message_expiration-Leaves key r now stream id ttl n =
      go (api.send r (zadd (expiration_key stream) (now + ttl) (member_of stream id)))
        (send-Leaves key r _ (expiration_key stream, member_of stream id) _ refl n)
    where
      go :
          (s : R × Bool)
          → Leaves key r s.0
          → Leaves key r (add_score api s (expiration_key stream)).0
      go (s, false) h = h
      go (s, true) h = Leaves-trans key r s _ h (quiet-Leaves key s _ refl)

  pub ack_task_processed-Leaves :
      (key : Text) (r : R) (stream group id : Text)
      → stream ≢ key
      → expiration_key stream ≢ key
      → Leaves key r (ack_task_processed api r stream group id).0
  unfolding ack_task_processed ack_task_processed_with_delete remove_message_expiration
  ack_task_processed-Leaves key r stream group id n e =
      go (api.send r (xack stream group id)) (quiet-Leaves key r _ refl)
    where
      go : (s : R × Bool) → Leaves key r s.0 → Leaves key r (acknowledged api s stream id true).0
      go (s, false) h = h
      go (s, true) h = Leaves-trans key r s _ h (
          Leaves-trans key s _ _
            (send-Leaves key s _ (expiration_key stream, member_of stream id) none refl e)
            (send-Leaves key _ _ (stream, id) none refl n))

  pub add_task_to_stream-Leaves :
      (json : TaskJson) (key : Text) (r : R) (now : ℕ) (stream : Text) (t : TaskStreamData)
      → stream ≢ key
      → expiration_key stream ≢ key
      → Leaves key r (add_task_to_stream api json r now stream t).0
  unfolding add_task_to_stream
  add_task_to_stream-Leaves json key r now stream t n e = go (first_id t) (json.marshal t)
    where
      added :
          (text : Text) (first : Option ℕ) (s : R × Option Text)
          → Leaves key r s.0
          → Leaves key r (added_task api json now stream first s).0
      added text first (s, none) h = h
      added text first (s, some id) h =
          Leaves-trans key r s _ h (add_message_expiration-Leaves key s now stream id hour e)

      go :
          (first : Option ℕ) (o : Option Text)
          → Leaves key r (add_encoded api json r now stream first o).0
      go first none = λ m. refl
      go first (some text) =
          added text first (api.xadd r stream text)
            (λ m. laws.added_elsewhere r stream text key m n)
