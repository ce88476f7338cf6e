-- ===== src/FileCache/Start.antt =====
-- The file cache from its start: what loading counts, and a run of calls after it.
use triggerx_backend.Prelude.{
  ◌≡◌, refl, ap, Option, none, some, List, [], ◌∷◌, arith, if◌then◌else◌, All,
}
use triggerx_backend.Prelude.Int.{ℤ}
use triggerx_backend.Prelude.Maps.{get, Distinct, get-put}
use triggerx_backend.Prelude.Texts.{Text, Text-discrete, text, text_eq}
use triggerx_backend.FileCache.State.{
  CachedFile, Files, FileCache, Stat, found, not_exist, stat_failed, join,
}
use triggerx_backend.FileCache.Eviction.{Entry}
use triggerx_backend.FileCache.Accounts.{total}
use triggerx_backend.FileCache.Bound.{Accounted}
use triggerx_backend.FileCache.Invariant.{entry-Accounted, get_or_download_file-Accounted}
use triggerx_backend.FileCache.Cache.{
  Answers, new_file, load_entry, load_metadata, load_read, scan, scan_entry, scan_key, DirEntry,
  trim_go, load_existing_files, new_file_cache, empty_cache, get_or_download_file, add_found,
}

-- A metadata file as the cache writes it: no key twice, each file under its own.
abbrev pub Consistent : Files → Type 0
Consistent m = Distinct Text-discrete m × All (λ (e : Entry). e.1.hash ≡ e.0) m

load_metadata-Accounted :
    (stat : Text → Stat) (m : Files) (c : FileCache)
    → Consistent m
    → ((k : Text) (f : CachedFile)
        → get Text-discrete k m ≡ some f
        → get Text-discrete k c.files ≡ none)
    → Accounted c
    → Accounted (load_metadata stat m c)
unfolding load_metadata get
load_metadata-Accounted stat [] c h new a = a
load_metadata-Accounted stat ((k, f) ∷ m) c h new a =
    load_metadata-Accounted stat m (load_entry (stat f.path) k f c) (h.0.1, h.1.1)
      (still (stat f.path)) (loaded (stat f.path))
  where
    loaded : (s : Stat) → Accounted (load_entry s k f c)
    loaded (found s t) = entry-Accounted k f c h.1.0 (new k f (ground arith)) a
    loaded not_exist = a
    loaded stat_failed = a

    still :
        (s : Stat) (j : Text) (g : CachedFile)
        → get Text-discrete j m ≡ some g
        → get Text-discrete j (load_entry s k f c).files ≡ none
    still (found s t) j g e = ground (arith, get-put Text-discrete k j f c.files, h.0.0, e, new j g)
    still not_exist j g e = ground (arith, h.0.0, e, new j g)
    still stat_failed j g e = ground (arith, h.0.0, e, new j g)

scan_key-Accounted :
    (stat : Text → Stat) (path k : Text) (c : FileCache)
    → Accounted c
    → Accounted (scan_key stat path k c)
scan_key-Accounted stat path k c a = go (get Text-discrete k c.files) refl (stat path)
  where
    go :
        (o : Option CachedFile)
        → get Text-discrete k c.files ≡ o
        → (s : Stat)
        → Accounted (elim o as (λ x. FileCache) [ some f ↦ c | none ↦ add_found s k path c ])
    go (some f) e s = a
    go none e (found s t) = entry-Accounted k (new_file t k path s) c refl e a
    go none e not_exist = a
    go none e stat_failed = a

scan-Accounted :
    (stat : Text → Stat) (es : List DirEntry) (c : FileCache)
    → Accounted c
    → Accounted (scan stat es c)
unfolding scan
scan-Accounted stat [] c a = a
scan-Accounted stat (e ∷ es) c a =
    scan-Accounted stat es (scan_entry stat e c) (go (if e.is_dir then none else trim_go e.name))
  where
    go :
        (o : Option Text)
        → Accounted (elim o as (λ x. FileCache) [
          | none ↦ c
          | some key ↦ scan_key stat (join c.cache_dir e.name) key c
        ])
    go none = a
    go (some key) = scan_key-Accounted stat (join c.cache_dir e.name) key c a

abbrev pub AllConsistent : Option Files → Type 0
AllConsistent none = Unit
AllConsistent (some m) = Consistent m

load_read-Accounted :
    (stat : Text → Stat) (read : Option Files) (c : FileCache)
    → AllConsistent read
    → c.files ≡ []
    → Accounted c
    → Accounted (load_read stat read c)
unfolding get
load_read-Accounted stat none c h e a = a
load_read-Accounted stat (some m) c h e a =
    load_metadata-Accounted stat m c h (λ k f x. ap (get Text-discrete k) e) a

-- Calls one after the other.
unfoldable pub cache_calls : List (Answers × (Text × Text)) → FileCache → FileCache
cache_calls [] c = c
cache_calls (x ∷ xs) c = cache_calls xs (get_or_download_file x.0 x.1.0 x.1.1 c).0

cache_calls-Accounted :
    (xs : List (Answers × (Text × Text))) (c : FileCache)
    → Accounted c
    → Accounted (cache_calls xs c)
unfolding cache_calls
cache_calls-Accounted [] c a = a
cache_calls-Accounted (x ∷ xs) c a =
    cache_calls-Accounted xs _ (get_or_download_file-Accounted x.0 x.1.0 x.1.1 c a)

-- From a metadata file in which no key stands twice and each file stands under its hash, or none:
-- after the start and any calls that follow one another without overlap, whatever the file system
-- answers, the size is the total of the files held, the item count is their number, and every file
-- stands once, under its hash.
pub new_file_cache-calls-Accounted :
    (dir : Text) (max : ℤ) (stat : Text → Stat) (read : Option Files)
    (entries : Option (List DirEntry)) (xs : List (Answers × (Text × Text)))
    → AllConsistent read
    → Accounted (cache_calls xs (new_file_cache dir max stat read entries))
unfolding new_file_cache load_existing_files total get
new_file_cache-calls-Accounted dir max stat read entries xs h =
    cache_calls-Accounted xs _
      (go (if text_eq dir [] then text "/var/lib/triggerx/cache" else dir) entries)
  where
    start :
        (d : Text)
        → Accounted (load_read stat read (record (empty_cache d max) { metadata = read }))
    start d =
        load_read-Accounted stat read (record (empty_cache d max) { metadata = read }) h refl
          (tt, (λ k f e. cc), refl, refl)

    go :
        (d : Text) (es : Option (List DirEntry))
        → Accounted
            (load_existing_files stat read es (record (empty_cache d max) { metadata = read })).0
    go d none = start d
    go d (some es) = scan-Accounted stat es _ (start d)
