-- ===== src/FileCache/Bound.antt =====
-- What evictions do to the accounts, to the room in the cache, and which files they take.
use triggerx_backend.Prelude.{◌≡◌, Bool, true, false, some, [], ◌∷◌, arith, if◌then◌else◌}
use triggerx_backend.Prelude.Int.{ℤ, ◌+ℤ◌, int_laws, leb_ℤ}
use triggerx_backend.Prelude.Maps.{get, Distinct, get-delete, delete-Distinct}
use triggerx_backend.Prelude.Texts.{Text, Text-discrete}
use triggerx_backend.FileCache.State.{CachedFile, Files, FileCache}
use triggerx_backend.FileCache.Eviction.{Entry, drop_file, evict_one, evict}
use triggerx_backend.FileCache.Accounts.{total, count, total-delete, length-delete}

-- The counters are those of the files, and each file stands under its own key.
abbrev pub Accounted : FileCache → Type 0
Accounted c =
    Distinct Text-discrete c.files
    × ((k : Text) (f : CachedFile) → get Text-discrete k c.files ≡ some f → f.hash ≡ k)
    × (c.size ≡ total c.files)
    × (c.item_count ≡ count c.files)

abbrev pub Within : Files → FileCache → Type 0
Within l c =
    (j : Text) (f : CachedFile)
    → get Text-discrete j l ≡ some f
    → get Text-discrete j c.files ≡ some f

pub drop_file-Accounted :
    (e : Entry) (c : FileCache)
    → get Text-discrete e.0 c.files ≡ some e.1
    → Accounted c
    → Accounted (drop_file e c)
drop_file-Accounted e c g (d, h, s, n) = (
  delete-Distinct Text-discrete e.0 c.files d,
  λ k f x. h k f (ground (arith, get-delete Text-discrete e.0 k c.files, x)),
  grind (int_laws, total-delete e.0 e.1 c.files d g, s),
  grind (int_laws, length-delete e.0 e.1 c.files d g, n),
)

pub drop_file-Within :
    (e : Entry) (l : Files) (c : FileCache)
    → Distinct Text-discrete (e ∷ l)
    → Within (e ∷ l) c
    → Within l (drop_file e c)
unfolding get
drop_file-Within e l c d w j f x =
    ground (arith, get-delete Text-discrete e.0 j c.files, w j f, d.0, x)

pub rest-Within :
    (e : Entry) (l : Files) (c : FileCache)
    → Distinct Text-discrete (e ∷ l)
    → Within (e ∷ l) c
    → Within l c
unfolding get
rest-Within e l c d w j f x = ground (arith, w j f, d.0, x)

pub first-Within :
    (e : Entry) (l : Files) (c : FileCache)
    → Within (e ∷ l) c
    → get Text-discrete e.0 c.files ≡ some e.1
unfolding get
first-Within e l c w = w e.0 e.1 (ground arith)

pub evict-Accounted :
    (removes : Text → Bool) (need : ℤ) (l : Files) (ev : ℤ) (c : FileCache)
    → Distinct Text-discrete l
    → Within l c
    → Accounted c
    → Accounted (evict removes need l (ev, c)).1
unfolding evict
evict-Accounted removes need [] ev c d w a = a
evict-Accounted removes need (e ∷ l) ev c d w a =
    go (leb_ℤ need ev) (removes e.1.path)
      (evict-Accounted removes need l (ev +ℤ e.1.size) (drop_file e c) d.1
        (drop_file-Within e l c d w) (drop_file-Accounted e c (first-Within e l c w) a))
      (evict-Accounted removes need l ev c d.1 (rest-Within e l c d w) a)
  where
    go :
        (enough removed : Bool)
        → Accounted (evict removes need l (ev +ℤ e.1.size, drop_file e c)).1
        → Accounted (evict removes need l (ev, c)).1
        → Accounted
            (if enough then (ev, c) else evict removes need l (evict_one removed e (ev, c))).1
    go true removed h i = a
    go false true h i = h
    go false false h i = i
