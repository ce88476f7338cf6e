-- ===== src/TaskMonitor/Cleanup.antt =====
-- internal/taskmonitor/tasks/manager.go: the periodic removal of expired messages.
use triggerx_backend.Prelude.{ℕ, List, [], ◌∷◌}
use triggerx_backend.Prelude.Texts.{Text}
use triggerx_backend.TaskMonitor.Redis.{Redis, xdel}
use triggerx_backend.TaskMonitor.Expiration.{
  get_expired_messages_for_all_streams, remove_multiple_message_expirations,
}

module _ {R : Type 0} (api : Redis R) where
  -- A message that cannot be deleted is skipped, and forgotten with the others.
  abbrev pub delete_messages : R → Text → List Text → R
  delete_messages r stream [] = r
  delete_messages r stream (id ∷ ids) = delete_messages (api.send r (xdel stream id)).0 stream ids

  abbrev pub clean_streams : R → List (Text × List Text) → R
  clean_streams r [] = r
  clean_streams r ((stream, ids) ∷ rest) =
      clean_streams
        (remove_multiple_message_expirations api (delete_messages r stream ids) stream ids).0 rest

  unfoldable pub cleanup_expired_stream_entries : R → ℕ → R
  unfolding get_expired_messages_for_all_streams remove_multiple_message_expirations
  cleanup_expired_stream_entries r now =
      clean_streams r (get_expired_messages_for_all_streams api r now)
