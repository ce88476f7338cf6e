-- ===== src/FileCache/Invariant.antt =====
-- Every call of the file cache keeps its accounts.
use triggerx_backend.Prelude.{
  ℕ, ◌+◌, ◌≡◌, refl, sym, ap, ◌∙◌, subst, Bool, true, false, Option, none, some, List, length, ite,
  if◌then◌else◌, some-eq,
}
use triggerx_backend.Prelude.Int.{ℤ, pos, ◌+ℤ◌, ◌-ℤ◌, int_laws, leb_ℤ}
use triggerx_backend.Prelude.Maps.{get, put, get-put, put-Distinct}
use triggerx_backend.Prelude.Texts.{Text, Text-discrete}
use triggerx_backend.Prelude.Results.{Result}
use triggerx_backend.FileCache.State.{
  CacheError, CachedFile, Files, FileCache, save_metadata, Stat, found, not_exist, stat_failed,
}
use triggerx_backend.FileCache.Eviction.{evict, ensure_space, sort_files}
use triggerx_backend.FileCache.Accounts.{total-put, length-put, total-put_again}
use triggerx_backend.FileCache.Order.{sort_files-get}
use triggerx_backend.FileCache.Bound.{Accounted, evict-Accounted, drop_file-Accounted}
use triggerx_backend.FileCache.Room.{absent-evict}
use triggerx_backend.FileCache.Cache.{
  Answers, forget, touch, access_cached_file, access, add_file, new_file, store_file, store_in,
  store_written, store_download, get_or_download_file,
}

save_metadata-Accounted : (b : Bool) (c : FileCache) → Accounted c → Accounted (save_metadata b c)
save_metadata-Accounted true c a = a
save_metadata-Accounted false c a = a

ensure_space-Accounted :
    (removes : Text → Bool) (saves : Bool) (required : ℤ) (c : FileCache)
    → Accounted c
    → Accounted (ensure_space removes saves required c)
unfolding ensure_space
ensure_space-Accounted removes saves required c a =
    let need = (c.size +ℤ required) -ℤ c.max_cache_size in
    let sorted = sort_files (length c.files) c.files in
    let (d, same) = sort_files-get (length c.files) c.files a.0 in
    go (leb_ℤ (c.size +ℤ required) c.max_cache_size) (evict removes need sorted (pos 0, c))
      (evict-Accounted removes need sorted (pos 0) c d (λ k x h. sym (same k) ∙ h) a)
  where
    go :
        (fits : Bool) (s : ℤ × FileCache)
        → Accounted s.1
        → Accounted (if fits then c else save_metadata saves s.1)
    go true s h = a
    go false s h = save_metadata-Accounted saves s.1 h

-- Making room brings no file back.
absent-ensure_space :
    (removes : Text → Bool) (saves : Bool) (required : ℤ) (k : Text) (c : FileCache)
    → get Text-discrete k c.files ≡ none
    → get Text-discrete k (ensure_space removes saves required c).files ≡ none
unfolding ensure_space
absent-ensure_space removes saves required k c a =
    let need = (c.size +ℤ required) -ℤ c.max_cache_size in
    let sorted = sort_files (length c.files) c.files in
    go (leb_ℤ (c.size +ℤ required) c.max_cache_size) saves (evict removes need sorted (pos 0, c))
      (absent-evict removes need k sorted (pos 0) c a)
  where
    go :
        (fits saved : Bool) (s : ℤ × FileCache)
        → get Text-discrete k s.1.files ≡ none
        → get Text-discrete k (if fits then c else save_metadata saved s.1).files ≡ none
    go true saved s h = a
    go false true s h = h
    go false false s h = h

hash-put :
    (k : Text) (f : CachedFile) (m : Files)
    → f.hash ≡ k
    → ((j : Text) (g : CachedFile) → get Text-discrete j m ≡ some g → g.hash ≡ j)
    → (j : Text) (g : CachedFile) → get Text-discrete j (put Text-discrete k f m) ≡ some g
    → g.hash ≡ j
hash-put k f m e h j g p = go (Text-discrete k j) (sym (get-put Text-discrete k j f m) ∙ p)
  where
    go : (q : Dec (k ≡ j)) → ite q (some f) (get Text-discrete j m) ≡ some g → g.hash ≡ j
    go (yes q) x = ap (λ (y : CachedFile). y.hash) (sym (some-eq x)) ∙ e ∙ q
    go (no q) x = h j g x

-- A file under a new key.
pub entry-Accounted :
    (k : Text) (f : CachedFile) (c : FileCache)
    → f.hash ≡ k
    → get Text-discrete k c.files ≡ none
    → Accounted c
    → Accounted (record c {
      files = put Text-discrete k f c.files;
      item_count = c.item_count +ℤ pos 1;
      size = c.size +ℤ f.size;
    })
entry-Accounted k f c e g (d, h, s, n) = (
  put-Distinct Text-discrete k f c.files d,
  hash-put k f c.files e h,
  ap (λ (x : ℤ). x +ℤ f.size) s ∙ sym (total-put k f c.files g),
  grind (int_laws, length-put k f c.files g, n),
)

touch-Accounted :
    (now : ℕ) (k : Text) (f : CachedFile) (c : FileCache)
    → get Text-discrete k c.files ≡ some f
    → Accounted c
    → Accounted (touch now k f c)
touch-Accounted now k f c g (d, h, s, n) =
    let (t, l) = total-put_again k (record f { last_accessed = now }) f c.files g refl in
    (
      put-Distinct Text-discrete k (record f { last_accessed = now }) c.files d,
      hash-put k (record f { last_accessed = now }) c.files (h k f g) h,
      s ∙ sym t,
      n ∙ ap pos (sym l),
    )

access-Accounted :
    (w : Answers) (k : Text) (f : CachedFile) (s : Stat) (c : FileCache)
    → get Text-discrete k c.files ≡ some f
    → Accounted c
    → Accounted (access w k f s c).0
access-Accounted w k f not_exist c g a = save_metadata-Accounted w.saves (forget f c) (
    drop_file-Accounted (f.hash, f) c
      (subst (λ (j : Text). get Text-discrete j c.files ≡ some f) (sym (a.1 k f g)) g) a)
access-Accounted w k f (found s t) c g a =
    save_metadata-Accounted w.saves (touch w.now k f c) (touch-Accounted w.now k f c g a)
access-Accounted w k f stat_failed c g a =
    save_metadata-Accounted w.saves (touch w.now k f c) (touch-Accounted w.now k f c g a)

store_in-Accounted :
    (b : Bool) (w : Answers) (k path : Text) (c : FileCache)
    → get Text-discrete k c.files ≡ none
    → Accounted c
    → Accounted (store_in b w k path c).0
store_in-Accounted false w k path c g a = a
store_in-Accounted true w k path c g a = go (w.stat path)
  where
    go : (s : Stat) → Accounted (store_written w k path s c).0
    go (found s t) =
        save_metadata-Accounted w.saves (add_file (new_file w.now k path s) c)
          (entry-Accounted k (new_file w.now k path s) c refl g a)
    go not_exist = a
    go stat_failed = a

-- Storing under a key that the cache does not hold.
pub store_file-Accounted :
    (w : Answers) (k language : Text) (content : List ℕ) (c : FileCache)
    → get Text-discrete k c.files ≡ none
    → Accounted c
    → Accounted (store_file w k language content c).0
unfolding store_file
store_file-Accounted w k language content c g a =
    store_in-Accounted w.writes w k _ _
      (absent-ensure_space w.removes w.saves_evicted (pos (length content)) k c g)
      (ensure_space-Accounted w.removes w.saves_evicted (pos (length content)) c a)

-- Every call keeps the accounts, with any answers of the file system and of the download.
pub get_or_download_file-Accounted :
    (w : Answers) (k language : Text) (c : FileCache)
    → Accounted c
    → Accounted (get_or_download_file w k language c).0
unfolding get_or_download_file access_cached_file
get_or_download_file-Accounted w k language c a = go (get Text-discrete k c.files) refl w.download
  where
    go :
        (o : Option CachedFile)
        → get Text-discrete k c.files ≡ o
        → (content : Option (List ℕ))
        → Accounted
            (elim o as (λ x. FileCache × Result CacheError Text) [
              | some f ↦ access_cached_file w k f c
              | none ↦
                  store_download w k language content (record c { miss_count = c.miss_count + 1 })
            ]).0
    go (some f) e content = access-Accounted w k f (w.stat f.path) c e a
    go none e none = a
    go none e (some content) =
        store_file-Accounted w k language content (record c { miss_count = c.miss_count + 1 }) e a
