-- ===== src/FileCache/Cache.antt =====
-- pkg/dockerexecutor/file/cache.go: lookups, stores and the load at the start.
use triggerx_backend.Prelude.{
  ℕ, ◌+◌, Bool, true, false, Option, none, some, List, [], ◌∷◌, length, if◌then◌else◌,
}
use triggerx_backend.Prelude.Int.{ℤ, pos, ◌+ℤ◌, ◌-ℤ◌}
use triggerx_backend.Prelude.Maps.{get, put, delete}
use triggerx_backend.Prelude.Results.{Result, ok, err}
use triggerx_backend.Prelude.Texts.{Text, text, text_eq, Text-discrete}
use triggerx_backend.FileCache.State.{
  CachedFile, Files, FileCache, Stat, found, not_exist, stat_failed, CacheError, download_failed,
  not_on_disk, write_failed, info_failed, read_dir_failed, file_name, join, save_metadata,
}
use triggerx_backend.FileCache.Eviction.{ensure_space}

-- What the world answers during one call.
pub record Answers : Type 0 where
  pub download : Option (List ℕ)
  pub removes : Text → Bool
  pub writes : Bool
  pub stat : Text → Stat
  pub saves_evicted : Bool
  pub saves : Bool
  pub now : ℕ

abbrev pub forget : CachedFile → FileCache → FileCache
forget f c = record c {
  files = delete Text-discrete f.hash c.files;
  item_count = c.item_count -ℤ pos 1;
  size = c.size -ℤ f.size;
}

abbrev pub touch : ℕ → Text → CachedFile → FileCache → FileCache
touch now key f c = record c {
  files = put Text-discrete key (record f { last_accessed = now }) c.files;
  hit_count = c.hit_count + 1;
}

-- `accessCachedFile`, of the file that the lookup found under the key.
abbrev pub access :
    Answers → Text → CachedFile → Stat → FileCache → FileCache × Result CacheError Text
access w key f not_exist c = (save_metadata w.saves (forget f c), err not_on_disk)
access w key f (found s t) c = (save_metadata w.saves (touch w.now key f c), ok f.path)
access w key f stat_failed c = (save_metadata w.saves (touch w.now key f c), ok f.path)

unfoldable pub access_cached_file :
    Answers → Text → CachedFile → FileCache → FileCache × Result CacheError Text
access_cached_file w key f c = access w key f (w.stat f.path) c

abbrev pub new_file : ℕ → Text → Text → ℤ → CachedFile
new_file now key path size = record {
  path = path;
  hash = key;
  last_accessed = now;
  size = size;
  created_at = now;
}

abbrev pub add_file : CachedFile → FileCache → FileCache
add_file f c = record c {
  files = put Text-discrete f.hash f c.files;
  item_count = c.item_count +ℤ pos 1;
  size = c.size +ℤ f.size;
}

abbrev pub store_written :
    Answers → Text → Text → Stat → FileCache → FileCache × Result CacheError Text
store_written w key path (found s t) c =
    (save_metadata w.saves (add_file (new_file w.now key path s) c), ok path)
store_written w key path not_exist c = (c, err info_failed)
store_written w key path stat_failed c = (c, err info_failed)

abbrev pub store_in : Bool → Answers → Text → Text → FileCache → FileCache × Result CacheError Text
store_in true w key path c = store_written w key path (w.stat path) c
store_in false w key path c = (c, err write_failed)

unfoldable pub store_file :
    Answers → Text → Text → List ℕ → FileCache → FileCache × Result CacheError Text
unfolding ensure_space file_name join
store_file w key language content c =
    let c' = ensure_space w.removes w.saves_evicted (pos (length content)) c in
    store_in w.writes w key (join c.cache_dir (file_name key language)) c'

abbrev pub store_download :
    Answers → Text → Text → Option (List ℕ) → FileCache → FileCache × Result CacheError Text
store_download w key language none c = (c, err download_failed)
store_download w key language (some content) c = store_file w key language content c

-- A call whose lookup, download and store no other call interrupts.
unfoldable pub get_or_download_file :
    Answers → Text → Text → FileCache → FileCache × Result CacheError Text
unfolding access_cached_file store_file
get_or_download_file w key language c = elim (get Text-discrete key c.files) [
  | some f ↦ access_cached_file w key f c
  | none ↦ store_download w key language w.download (record c { miss_count = c.miss_count + 1 })
]

-- A file of the metadata counts if it still exists.
abbrev pub load_entry : Stat → Text → CachedFile → FileCache → FileCache
load_entry (found s t) key f c = record c {
  files = put Text-discrete key f c.files;
  item_count = c.item_count +ℤ pos 1;
  size = c.size +ℤ f.size;
}
load_entry not_exist key f c = c
load_entry stat_failed key f c = c

unfoldable pub load_metadata : (Text → Stat) → Files → FileCache → FileCache
load_metadata stat [] c = c
load_metadata stat ((key, f) ∷ rest) c = load_metadata stat rest (load_entry (stat f.path) key f c)

-- `strings.TrimSuffix(name, ".go")` of a name whose extension is that.
unfoldable pub trim_go : Text → Option Text
trim_go [] = none
trim_go (x ∷ t) =
    let rest = trim_go t in
    if text_eq (x ∷ t) (text ".go")
    then some []
    else elim rest [ none ↦ none | some k ↦ some (x ∷ k) ]

pub record DirEntry : Type 0 where
  pub name : Text
  pub is_dir : Bool

abbrev pub add_found : Stat → Text → Text → FileCache → FileCache
add_found (found s t) key path c = add_file (new_file t key path s) c
add_found not_exist key path c = c
add_found stat_failed key path c = c

-- A file of the directory that the metadata does not name.
abbrev pub scan_key : (Text → Stat) → Text → Text → FileCache → FileCache
scan_key stat path key c = elim (get Text-discrete key c.files) [
  | some f ↦ c
  | none ↦ add_found (stat path) key path c
]

abbrev pub scan_entry : (Text → Stat) → DirEntry → FileCache → FileCache
scan_entry stat e c = elim (if e.is_dir then none else trim_go e.name) [
  | none ↦ c
  | some key ↦ scan_key stat (join c.cache_dir e.name) key c
]

unfoldable pub scan : (Text → Stat) → List DirEntry → FileCache → FileCache
scan stat [] c = c
scan stat (e ∷ es) c = scan stat es (scan_entry stat e c)

abbrev pub load_read : (Text → Stat) → Option Files → FileCache → FileCache
load_read stat none c = c
load_read stat (some m) c = load_metadata stat m c

-- `read` is the decoded metadata file, where it can be read; `entries` the directory, likewise.
unfoldable pub load_existing_files :
    (Text → Stat)
    → Option Files
    → Option (List DirEntry)
    → FileCache
    → FileCache × Result CacheError (Unit {0})
unfolding scan
load_existing_files stat read entries c =
    let loaded = load_read stat read c in
    elim entries [ none ↦ (loaded, err read_dir_failed) | some es ↦ (scan stat es loaded, ok tt) ]

abbrev pub empty_cache : Text → ℤ → FileCache
empty_cache dir max = record {
  cache_dir = dir;
  files = [];
  max_cache_size = max;
  hit_count = 0;
  miss_count = 0;
  size = pos 0;
  item_count = pos 0;
  eviction_count = 0;
  metadata = none;
}

-- The directory is `/var/lib/triggerx/cache` unless the configuration names one; an error of the
-- load is only logged.
unfoldable pub new_file_cache :
    Text → ℤ → (Text → Stat) → Option Files → Option (List DirEntry) → FileCache
unfolding load_existing_files
new_file_cache dir max stat read entries =
    let chosen = if text_eq dir [] then text "/var/lib/triggerx/cache" else dir in
    (load_existing_files stat read entries (record (empty_cache chosen max) { metadata = read })).0
