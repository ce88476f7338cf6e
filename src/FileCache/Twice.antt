-- ===== src/FileCache/Twice.antt =====
-- What the counters of the file cache say after two calls have missed the same key.
use triggerx_backend.Prelude.{
  ℕ, ◌≡◌, sym, ap, ◌∙◌, Bool, true, false, some, List, [], ◌∷◌, length, arith,
}
use triggerx_backend.Prelude.Int.{ℤ, pos, ◌+ℤ◌, int_laws, ◌≤ℤ◌}
use triggerx_backend.Prelude.Maps.{get, put}
use triggerx_backend.Prelude.Texts.{Text, Text-discrete}
use triggerx_backend.FileCache.State.{
  CachedFile, Files, FileCache, Stat, found, not_exist, stat_failed, save_metadata, file_name, join,
}
use triggerx_backend.FileCache.Eviction.{ensure_space}
use triggerx_backend.FileCache.Cache.{
  Answers, store_file, store_in, store_written, add_file, new_file,
}
use triggerx_backend.FileCache.Accounts.{total, count}
use triggerx_backend.FileCache.Bound.{Accounted}

total-replace :
    (k : Text) (f g : CachedFile) (m : Files)
    → get Text-discrete k m ≡ some g
    → (total (put Text-discrete k f m) +ℤ g.size ≡ total m +ℤ f.size)
unfolding get put total
total-replace k f g [] e = cc
total-replace k f g ((j, h) ∷ m) e = grind (int_laws, total-replace k f g m)

length-replace :
    (k : Text) (f g : CachedFile) (m : Files)
    → get Text-discrete k m ≡ some g
    → length (put Text-discrete k f m) ≡ length m
unfolding get put
length-replace k f g [] e = cc
length-replace k f g ((j, h) ∷ m) e = ground (arith, length-replace k f g m)

ensure_space-fits :
    (removes : Text → Bool) (saves : Bool) (required : ℤ) (c : FileCache)
    → (c.size +ℤ required) ≤ℤ c.max_cache_size
    → ensure_space removes saves required c ≡ c
unfolding ensure_space
ensure_space-fits removes saves required c h = ground arith

-- One file too many in the item count, and one file's bytes in the size.
abbrev pub CountedTwice : CachedFile → FileCache → Type 0
CountedTwice g c = (c.item_count ≡ count c.files +ℤ pos 1) × (c.size ≡ total c.files +ℤ g.size)

add_file-CountedTwice :
    (f g : CachedFile) (c : FileCache)
    → get Text-discrete f.hash c.files ≡ some g
    → Accounted c
    → CountedTwice g (add_file f c)
add_file-CountedTwice f g c e (d, h, s, n) = (
  ap (λ (x : ℤ). x +ℤ pos 1) (n ∙ ap pos (sym (length-replace f.hash f g c.files e))),
  ap (λ (x : ℤ). x +ℤ f.size) s ∙ sym (total-replace f.hash f g c.files e),
)

save_metadata-CountedTwice :
    (b : Bool) (g : CachedFile) (c : FileCache)
    → CountedTwice g c
    → CountedTwice g (save_metadata b c)
save_metadata-CountedTwice true g c h = h
save_metadata-CountedTwice false g c h = h

-- Storing under a key that the cache holds by now, as the second of two calls that both missed it
-- does: if the accounts are right before, nothing has to be evicted and the write goes through, the
-- item count afterwards is one more than the number of files, and the size is too large by that of
-- the file replaced.
pub store_file-CountedTwice :
    (w : Answers) (k language : Text) (content : List ℕ) (c : FileCache) (g : CachedFile) (s : ℤ)
    (t : ℕ)
    → Accounted c
    → get Text-discrete k c.files ≡ some g
    → (c.size +ℤ pos (length content)) ≤ℤ c.max_cache_size
    → w.writes ≡ true
    → w.stat (join c.cache_dir (file_name k language)) ≡ found s t
    → CountedTwice g (store_file w k language content c).0
unfolding store_file
store_file-CountedTwice w k language content c g s t a e fits wr st =
    rw (ensure_space-fits w.removes w.saves_evicted (pos (length content)) c fits)
      (go (join c.cache_dir (file_name k language)) w.writes wr st)
  where
    stored :
        (path : Text) (x : Stat) → x ≡ found s t → CountedTwice g (store_written w k path x c).0
    stored path (found s' t') q =
        save_metadata-CountedTwice w.saves g (add_file (new_file w.now k path s') c)
          (add_file-CountedTwice (new_file w.now k path s') g c e a)
    stored path not_exist q = cc
    stored path stat_failed q = cc

    go :
        (path : Text) (b : Bool)
        → b ≡ true
        → w.stat path ≡ found s t
        → CountedTwice g (store_in b w k path c).0
    go path true q st' = stored path (w.stat path) st'
    go path false q st' = cc
