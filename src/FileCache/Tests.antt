-- ===== src/FileCache/Tests.antt =====
-- A cache of at most ten bytes with one script of eight.
use triggerx_backend.Prelude.{◌≡◌, refl, true, false, none, some, [], ◌∷◌, ◌≤◌, arith, ℕ_discrete}
use triggerx_backend.Prelude.Int.{pos, ◌+ℤ◌, ◌-ℤ◌, ◌≤ℤ◌}
use triggerx_backend.Prelude.Maps.{get, put, delete}
use triggerx_backend.Prelude.Texts.{text, text_eq, Text-discrete}
use triggerx_backend.FileCache.State.{CachedFile, FileCache, found, file_name, join, replace_all}
use triggerx_backend.FileCache.Eviction.{ensure_space, sort_files, exchange, evict}
use triggerx_backend.FileCache.Cache.{
  Answers, empty_cache, new_file, load_existing_files, store_file, add_file, new_file_cache,
  load_metadata, scan, trim_go,
}
use triggerx_backend.FileCache.Accounts.{total}
use triggerx_backend.FileCache.Bound.{Accounted}
use triggerx_backend.FileCache.Invariant.{entry-Accounted}
use triggerx_backend.FileCache.Room.{ensure_space-room, ensure_space-oldest}
use triggerx_backend.FileCache.Start.{new_file_cache-calls-Accounted, cache_calls}
use triggerx_backend.FileCache.Twice.{store_file-CountedTwice, CountedTwice}

abbrev answers : Answers
answers = record {
  download = some (1 ∷ 2 ∷ 3 ∷ []);
  removes = λ p. true;
  writes = true;
  stat = λ p. found (pos 3) 7;
  saves_evicted = true;
  saves = true;
  now = 9;
}

abbrev old : CachedFile
old = new_file 1 (text "a") (text "/c/a.go") (pos 5)

abbrev recent : CachedFile
recent = new_file 4 (text "b") (text "/c/b.go") (pos 3)

abbrev first_held : FileCache
first_held = add_file old (empty_cache (text "/c") (pos 10))

abbrev held : FileCache
held = add_file recent first_held

empty-Accounted : Accounted (empty_cache (text "/c") (pos 10))
unfolding get total
empty-Accounted = (tt, (λ k f e. cc), refl, refl)

held-Accounted : Accounted held
unfolding get put Text-discrete ℕ_discrete ◌+ℤ◌
held-Accounted =
    entry-Accounted (text "b") recent first_held refl refl
      (entry-Accounted (text "a") old (empty_cache (text "/c") (pos 10)) refl refl empty-Accounted)

ensure_space-room_example : ((ensure_space (λ p. true) true (pos 4) held).size +ℤ pos 4) ≤ℤ pos 10
ensure_space-room_example =
    ensure_space-room (λ p. true) true (pos 4) held held-Accounted (λ p. refl) (omega arith)

ensure_space-oldest_example : 1 ≤ 4
unfolding get put delete Text-discrete ℕ_discrete ensure_space sort_files exchange evict ◌+ℤ◌ ◌-ℤ◌
ensure_space-oldest_example =
    ensure_space-oldest (λ p. true) true (pos 4) held held-Accounted (text "a") (text "b") old
      recent recent refl refl refl refl refl

new_file_cache-calls-Accounted_example : Accounted (
    cache_calls
      ((answers, (text "k", text "py")) ∷ [])
      (new_file_cache [] (pos 10) (λ p. found (pos 3) 7) (some ((text "a", old) ∷ [])) none))
unfolding get
new_file_cache-calls-Accounted_example =
    new_file_cache-calls-Accounted [] (pos 10) (λ p. found (pos 3) 7) (some ((text "a", old) ∷ []))
      none ((answers, (text "k", text "py")) ∷ []) ((refl, tt), (refl, tt))

store_file-CountedTwice_example :
    CountedTwice recent (store_file answers (text "b") (text "go") (1 ∷ []) held).0
unfolding get put Text-discrete ℕ_discrete ◌+ℤ◌
store_file-CountedTwice_example =
    store_file-CountedTwice answers (text "b") (text "go") (1 ∷ []) held recent (pos 3) 7
      held-Accounted refl (omega arith) refl refl

-- A key with a slash: after a reload its one file is held twice, under its key and under the name
-- of the file.
abbrev reloaded : FileCache
reloaded =
    (load_existing_files (λ p. found (pos 3) 7)
      (some ((text "x/y", new_file 1 (text "x/y") (text "/c/x_y.go") (pos 3)) ∷ []))
      (some (record { name = text "x_y.go"; is_dir = false } ∷ []))
      (empty_cache (text "/c") (pos 10))).0

tests : Unit {0}
unfolding get put Text-discrete ℕ_discrete ◌+ℤ◌ load_existing_files load_metadata scan trim_go join
    text_eq file_name replace_all
tests = tt
  where
    reloaded_size : reloaded.size ≡ pos 6
    reloaded_size = refl

    named : file_name (text "x/y") (text "rust") ≡ text "x_y.go"
    named = refl
