-- ===== src/FileCache/Eviction.antt =====
-- pkg/dockerexecutor/file/cache.go: `ensureSpace`, which evicts the files that were accessed the
-- longest time ago.
use triggerx_backend.Prelude.{
  ℕ, zero, suc, ◌+◌, Bool, true, false, [], ◌∷◌, ltb, if◌then◌else◌, length,
}
use triggerx_backend.Prelude.Int.{ℤ, pos, ◌+ℤ◌, ◌-ℤ◌, leb_ℤ}
use triggerx_backend.Prelude.Maps.{delete}
use triggerx_backend.Prelude.Texts.{Text, Text-discrete}
use triggerx_backend.FileCache.State.{CachedFile, Files, FileCache, save_metadata}

abbrev pub Entry : Type 0
Entry = Text × CachedFile

-- `files[i].file.LastAccessed.After(files[j].file.LastAccessed)`
abbrev pub is_after : Entry → Entry → Bool
is_after x y = ltb y.1.last_accessed x.1.last_accessed

-- One round of the exchange sort: the entry at i, and the later ones with the exchanges made.
unfoldable pub exchange : Entry → Files → Entry × Files
exchange x [] = (x, [])
exchange x (y ∷ ys) =
    let swap = is_after x y in
    let r = exchange (if swap then y else x) ys in (r.0, (if swap then x else y) ∷ r.1)

-- The rounds, one for each place.
unfoldable pub sort_files : ℕ → Files → Files
unfolding exchange
sort_files n [] = []
sort_files zero (x ∷ xs) = x ∷ xs
sort_files (suc n) (x ∷ xs) = (exchange x xs).0 ∷ sort_files n (exchange x xs).1

abbrev pub drop_file : Entry → FileCache → FileCache
drop_file e c = record c {
  files = delete Text-discrete e.0 c.files;
  eviction_count = c.eviction_count + 1;
  item_count = c.item_count -ℤ pos 1;
  size = c.size -ℤ e.1.size;
}

-- A file that cannot be removed from disk stays.
abbrev pub evict_one : Bool → Entry → ℤ × FileCache → ℤ × FileCache
evict_one true e (evicted, c) = (evicted +ℤ e.1.size, drop_file e c)
evict_one false e s = s

-- The loop over the sorted files, with the bytes evicted so far.
unfoldable pub evict : (Text → Bool) → ℤ → Files → ℤ × FileCache → ℤ × FileCache
evict removes need [] s = s
evict removes need (e ∷ rest) s =
    let next = evict removes need rest (evict_one (removes e.1.path) e s) in
    if leb_ℤ need s.0 then s else next

unfoldable pub ensure_space : (Text → Bool) → Bool → ℤ → FileCache → FileCache
unfolding evict sort_files
ensure_space removes saves required c =
    let need = (c.size +ℤ required) -ℤ c.max_cache_size in
    let evicted = evict removes need (sort_files (length c.files) c.files) (pos 0, c) in
    if leb_ℤ (c.size +ℤ required) c.max_cache_size then c else save_metadata saves evicted.1
