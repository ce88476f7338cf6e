-- ===== src/FileCache/State.antt =====
-- pkg/dockerexecutor/file/cache.go: the state of the file cache. A key and a path are lists of code
-- points, a time is a number, and int64 is an exact integer. The file system answers each call by
-- an argument, and the metadata file is the map that its JSON encodes.
use triggerx_backend.Prelude.{
  ℕ, Bool, true, false, Option, some, List, [], ◌∷◌, ◌++◌, ◌==◌, if◌then◌else◌,
}
use triggerx_backend.Prelude.Int.{ℤ}
use triggerx_backend.Prelude.Texts.{Text, text, text_eq}

pub record CachedFile : Type 0 where
  pub path : Text
  pub hash : Text
  pub last_accessed : ℕ
  pub size : ℤ
  pub created_at : ℕ

abbrev pub Files : Type 0
Files = List (Text × CachedFile)

pub record FileCache : Type 0 where
  pub cache_dir : Text
  pub files : Files
  pub max_cache_size : ℤ
  pub hit_count : ℕ
  pub miss_count : ℕ
  pub size : ℤ
  pub item_count : ℤ
  pub eviction_count : ℕ
  pub metadata : Option Files

-- What `Stat` says: a size and a time of modification, that there is no such file, or another error.
pub data Stat : Type 0 where
  found : ℤ → ℕ → Stat
  not_exist : Stat
  stat_failed : Stat

pub data CacheError : Type 0 where
  download_failed not_on_disk write_failed info_failed read_dir_failed : CacheError

-- `strings.ReplaceAll` for one character.
unfoldable pub replace_all : ℕ → ℕ → Text → Text
replace_all old new [] = []
replace_all old new (x ∷ t) = (if x == old then new else x) ∷ replace_all old new t

abbrev pub get_file_extension : Text → Text
get_file_extension language =
    if text_eq language (text "ts")
    then text "ts"
    else if text_eq language (text "node")
    then text "mjs"
    else if text_eq language (text "py")
    then text "py"
    else if text_eq language (text "js")
    then text "js"
    else text "go"

-- The name of a key's file: 47 is a slash, 58 a colon, 95 an underscore.
unfoldable pub file_name : Text → Text → Text
unfolding replace_all text_eq
file_name key language =
    replace_all 58 95 (replace_all 47 95 key) ++ (text "." ++ get_file_extension language)

-- `filepath.Join`, for a clean directory.
unfoldable pub join : Text → Text → Text
join dir name = dir ++ (text "/" ++ name)

-- What `saveMetadata` leaves, if the write goes through.
abbrev pub save_metadata : Bool → FileCache → FileCache
save_metadata true c = record c { metadata = some c.files }
save_metadata false c = c
