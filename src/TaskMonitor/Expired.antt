-- ===== src/TaskMonitor/Expired.antt =====
-- What is read back from the sorted sets of the timeouts and of the expirations.
use triggerx_backend.Prelude.{
  ℕ, ◌≡◌, ◌≢◌, refl, ap, ◌∙◌, some, Option, List, [], ◌∷◌, ◌++◌, map, All, arith,
}
use triggerx_backend.Prelude.Results.{ok}
use triggerx_backend.Prelude.Texts.{Text, text}
use triggerx_backend.Prelude.Decimal.{format_int, parse_int, parse_int-format_int}
use triggerx_backend.TaskMonitor.Redis.{Redis}
use triggerx_backend.TaskMonitor.Data.{timeouts_key, expiration_key}
use triggerx_backend.TaskMonitor.Expiration.{
  member_of, after_prefix, keep_read, read_all, get_expired_tasks, get_expired_messages,
}

after_prefix-append : (p m : Text) → m ≢ [] → after_prefix p (p ++ m) ≡ some m
unfolding after_prefix
after_prefix-append [] [] n = absurd (n refl)
after_prefix-append [] (y ∷ m) n = refl
after_prefix-append (x ∷ p) m n = ground (arith, after_prefix-append p m n)

pub after_prefix-member_of :
    (stream id : Text) → id ≢ [] → after_prefix (stream ++ text ":") (member_of stream id) ≡ some id
after_prefix-member_of stream id n =
    ap (after_prefix (stream ++ text ":")) (shift stream)
    ∙ after_prefix-append (stream ++ text ":") id n
  where
    shift : (s : Text) → s ++ (text ":" ++ id) ≡ (s ++ text ":") ++ id
    shift [] = refl
    shift (x ∷ s) = ap (λ (t : Text). x ∷ t) (shift s)

pub keep_read-map :
    {A B : Type 0}
    → (f : A → Option B) (g : B → A) (P : B → Type 0) → ((b : B) → P b → f (g b) ≡ some b)
    → (bs : List B) → All P bs
    → keep_read f (map g bs) ≡ bs
keep_read-map f g P h [] a = refl
keep_read-map f g P h (b ∷ bs) a = rw (h b a.0, keep_read-map f g P h bs a.1) refl

pub All-Unit : (ids : List ℕ) → All (λ (id : ℕ). Unit {0}) ids
All-Unit [] = tt
All-Unit (id ∷ ids) = (tt, All-Unit ids)

module _ {R : Type 0} (api : Redis R) where
  -- Where Redis returns the members that timeouts of tasks and expirations of messages were added
  -- under, the worker reads back exactly those tasks, and exactly those messages of the stream,
  -- whose ids are not empty.
  pub get_expired-read_back :
      (r : R) (now : ℕ) (stream : Text) (ids : List ℕ) (entries : List Text)
      → api.zrange r timeouts_key now ≡ some (map format_int ids)
      → api.zrange r (expiration_key stream) now ≡ some (map (member_of stream) entries)
      → All (λ (id : Text). id ≢ []) entries
      → (get_expired_tasks api r now ≡ ok ids)
        × (get_expired_messages api r now stream ≡ ok entries)
  unfolding get_expired_tasks get_expired_messages
  get_expired-read_back r now stream ids entries tasks members filled = (
    ap (read_all parse_int) tasks
        ∙ ap (λ (x : List ℕ). ok x)
            (keep_read-map parse_int format_int (λ (id : ℕ). Unit {0})
              (λ id done. parse_int-format_int id) ids (All-Unit ids)),
    ap (read_all (after_prefix (stream ++ text ":"))) members
        ∙ ap (λ (x : List Text). ok x)
            (keep_read-map (after_prefix (stream ++ text ":")) (member_of stream)
              (λ (id : Text). id ≢ []) (after_prefix-member_of stream) entries filled),
  )
