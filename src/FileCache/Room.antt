-- ===== src/FileCache/Room.antt =====
-- `ensureSpace`: the room that it leaves, and the files that it takes.
use triggerx_backend.Prelude.{
  ◌≤◌, ◌≡◌, ◌≢◌, refl, sym, ap, ◌∙◌, subst, Bool, true, false, Option, none, some, [], ◌∷◌, arith,
  length, if◌then◌else◌, inl, inr, ◌⊎◌, All, some-eq,
}
use triggerx_backend.Prelude.Int.{ℤ, pos, ◌+ℤ◌, ◌-ℤ◌, int_laws, leb_ℤ, ◌≤ℤ◌}
use triggerx_backend.Prelude.Maps.{get, Distinct, get-delete}
use triggerx_backend.Prelude.Texts.{Text, Text-discrete}
use triggerx_backend.FileCache.State.{CachedFile, Files, FileCache, save_metadata}
use triggerx_backend.FileCache.Eviction.{
  Entry, drop_file, evict_one, evict, ensure_space, sort_files,
}
use triggerx_backend.FileCache.Accounts.{total}
use triggerx_backend.FileCache.Order.{
  Sorted, OlderThan, sort_files-get, sort_files-Sorted, total-sort_files,
}
use triggerx_backend.FileCache.Bound.{Accounted, Within, drop_file-Within, rest-Within}

-- The bytes that leave the counter are those evicted.
evict-size :
    (removes : Text → Bool) (need : ℤ) (l : Files) (ev : ℤ) (c : FileCache)
    → (evict removes need l (ev, c)).1.size +ℤ (evict removes need l (ev, c)).0 ≡ c.size +ℤ ev
unfolding evict
evict-size removes need [] ev c = refl
evict-size removes need (e ∷ l) ev c =
    go (leb_ℤ need ev) (removes e.1.path)
      (evict-size removes need l (ev +ℤ e.1.size) (drop_file e c)) (evict-size removes need l ev c)
  where
    go :
        (enough removed : Bool)
        → (evict removes need l (ev +ℤ e.1.size, drop_file e c)).1.size
            +ℤ (evict removes need l (ev +ℤ e.1.size, drop_file e c)).0
          ≡ (c.size -ℤ e.1.size) +ℤ (ev +ℤ e.1.size)
        → (evict removes need l (ev, c)).1.size +ℤ (evict removes need l (ev, c)).0 ≡ c.size +ℤ ev
        → (if enough then (ev, c) else evict removes need l (evict_one removed e (ev, c))).1.size
            +ℤ (if enough then (ev, c) else evict removes need l (evict_one removed e (ev, c))).0
          ≡ c.size +ℤ ev
    go true removed h i = refl
    go false true h i = h ∙ grind int_laws
    go false false h i = i

-- Enough is evicted, or everything.
evict-enough :
    (removes : Text → Bool) (need : ℤ) (l : Files) (ev : ℤ) (c : FileCache)
    → ((p : Text) → removes p ≡ true)
    → (need ≤ℤ (evict removes need l (ev, c)).0)
      ⊎ ((evict removes need l (ev, c)).0 ≡ ev +ℤ total l)
unfolding evict total
evict-enough removes need [] ev c r = inr (grind int_laws)
evict-enough removes need (e ∷ l) ev c r =
    go (leb_ℤ need ev) refl (removes e.1.path) (r e.1.path)
      (evict-enough removes need l (ev +ℤ e.1.size) (drop_file e c) r)
  where
    go :
        (enough : Bool)
        → leb_ℤ need ev ≡ enough
        → (removed : Bool) → removed ≡ true
        → (need ≤ℤ (evict removes need l (ev +ℤ e.1.size, drop_file e c)).0)
          ⊎ ((evict removes need l (ev +ℤ e.1.size, drop_file e c)).0 ≡ (ev +ℤ e.1.size) +ℤ total l)
        → (need
            ≤ℤ (if enough then (ev, c) else evict removes need l (evict_one removed e (ev, c))).0)
          ⊎ ((if enough then (ev, c) else evict removes need l (evict_one removed e (ev, c))).0
              ≡ ev +ℤ (total l +ℤ e.1.size))
    go true q removed t h = inl (ground arith)
    go false q true t (inl h) = inl h
    go false q true t (inr h) = inr (h ∙ grind int_laws)
    go false q false t h = cc

size-save_metadata : (b : Bool) (c : FileCache) → (save_metadata b c).size ≡ c.size
size-save_metadata true c = refl
size-save_metadata false c = refl

room-left :
    (size required max left evicted : ℤ)
    → left +ℤ evicted ≡ size +ℤ pos 0
    → (((size +ℤ required) -ℤ max) ≤ℤ evicted) ⊎ (evicted ≡ pos 0 +ℤ size)
    → required ≤ℤ max
    → (left +ℤ required) ≤ℤ max
room-left size required max left evicted e (inl h) m = grind (int_laws, e, h, m)
room-left size required max left evicted e (inr h) m = grind (int_laws, e, h, m)

all_evicted :
    (need evicted all size size' : ℤ)
    → size ≡ size'
    → all ≡ size'
    → (need ≤ℤ evicted) ⊎ (evicted ≡ pos 0 +ℤ all)
    → (need ≤ℤ evicted) ⊎ (evicted ≡ pos 0 +ℤ size)
all_evicted need evicted all size size' e t (inl h) = inl h
all_evicted need evicted all size size' e t (inr h) = inr (cc)

-- If the accounts are right before (every file stands once, the size is the total of the files and
-- the item count their number), no removal fails and the new content is no larger than the cache may
-- be, there is room for the content afterwards.
pub ensure_space-room :
    (removes : Text → Bool) (saves : Bool) (required : ℤ) (c : FileCache)
    → Accounted c
    → ((p : Text) → removes p ≡ true)
    → required ≤ℤ c.max_cache_size
    → ((ensure_space removes saves required c).size +ℤ required) ≤ℤ c.max_cache_size
unfolding ensure_space
ensure_space-room removes saves required c a r m =
    let need = (c.size +ℤ required) -ℤ c.max_cache_size in
    let sorted = sort_files (length c.files) c.files in
    go (leb_ℤ (c.size +ℤ required) c.max_cache_size) refl (evict removes need sorted (pos 0, c)) (
      room-left c.size required c.max_cache_size _ _ (evict-size removes need sorted (pos 0) c)
        (all_evicted need _ _ _ _ a.2 (total-sort_files (length c.files) c.files)
          (evict-enough removes need sorted (pos 0) c r))
        m)
  where
    go :
        (fits : Bool)
        → leb_ℤ (c.size +ℤ required) c.max_cache_size ≡ fits
        → (s : ℤ × FileCache) → (s.1.size +ℤ required) ≤ℤ c.max_cache_size
        → ((if fits then c else save_metadata saves s.1).size +ℤ required) ≤ℤ c.max_cache_size
    go true q s h = ground arith
    go false q s h =
        subst (λ (t : ℤ). (t +ℤ required) ≤ℤ c.max_cache_size) (sym (size-save_metadata saves s.1))
          h

pub absent-evict :
    (removes : Text → Bool) (need : ℤ) (k : Text) (l : Files) (ev : ℤ) (c : FileCache)
    → get Text-discrete k c.files ≡ none
    → get Text-discrete k (evict removes need l (ev, c)).1.files ≡ none
unfolding evict
absent-evict removes need k [] ev c a = a
absent-evict removes need k (e ∷ l) ev c a =
    go (leb_ℤ need ev) (removes e.1.path)
      (absent-evict removes need k l (ev +ℤ e.1.size) (drop_file e c)
        (ground (arith, get-delete Text-discrete e.0 k c.files)))
      (absent-evict removes need k l ev c a)
  where
    go :
        (enough removed : Bool)
        → get Text-discrete k (evict removes need l (ev +ℤ e.1.size, drop_file e c)).1.files ≡ none
        → get Text-discrete k (evict removes need l (ev, c)).1.files ≡ none
        → get Text-discrete k
            (if enough then (ev, c) else evict removes need l (evict_one removed e (ev, c))).1.files
          ≡ none
    go true removed h i = a
    go false true h i = h
    go false false h i = i

All-OlderThan :
    (e : Entry) (l : Files) (k : Text) (f : CachedFile)
    → All (OlderThan e) l
    → get Text-discrete k l ≡ some f
    → e.1.last_accessed ≤ f.last_accessed
unfolding get
All-OlderThan e [] k f h g = cc
All-OlderThan e ((j, x) ∷ l) k f h g = elim (Text-discrete j k) [
  | yes q ↦ ground (arith, h.0, ap (λ (o : Option CachedFile). o) g)
  | no n ↦ All-OlderThan e l k f h.1 (ground arith)
]

head-get :
    (e : Entry) (l : Files) (j : Text) (f : CachedFile)
    → e.0 ≡ j
    → get Text-discrete j (e ∷ l) ≡ some f
    → e.1 ≡ f
unfolding get
head-get e l j f q g = some-eq (ground arith)

tail-get :
    (e : Entry) (l : Files) (j : Text) (f : CachedFile)
    → e.0 ≢ j
    → get Text-discrete j (e ∷ l) ≡ some f
    → get Text-discrete j l ≡ some f
unfolding get
tail-get e l j f n g = ground arith

-- The first entry is the oldest, so that the order is settled where either file is the first.
oldest-first :
    (e : Entry) (l : Files) (j i : Text) (f g : CachedFile)
    → All (OlderThan e) l
    → e.0 ≢ i
    → get Text-discrete j (e ∷ l) ≡ some f
    → get Text-discrete i (e ∷ l) ≡ some g
    → (f.last_accessed ≤ g.last_accessed) ⊎ (get Text-discrete j l ≡ some f)
oldest-first e l j i f g s n gj gi = elim (Text-discrete e.0 j) [
  | yes q ↦ inl (
      subst (λ (x : CachedFile). x.last_accessed ≤ g.last_accessed) (head-get e l j f q gj)
        (All-OlderThan e l i g s (tail-get e l i g n gi)))
  | no m ↦ inr (tail-get e l j f m gj)
]

settle :
    (e : Entry) (l : Files) (j i : Text) (f g : CachedFile)
    → All (OlderThan e) l
    → e.0 ≢ i
    → get Text-discrete j (e ∷ l) ≡ some f
    → get Text-discrete i (e ∷ l) ≡ some g
    → (get Text-discrete j l ≡ some f
        → get Text-discrete i l ≡ some g
        → f.last_accessed ≤ g.last_accessed)
    → f.last_accessed ≤ g.last_accessed
settle e l j i f g s n gj gi rest = elim (oldest-first e l j i f g s n gj gi) [
  | inl le ↦ le
  | inr gj' ↦ rest gj' (tail-get e l i g n gi)
]

-- A file that the loop takes is no younger than a removable one that it leaves.
evict-oldest :
    (removes : Text → Bool) (need : ℤ) (l : Files) (ev : ℤ) (c : FileCache)
    → Sorted l
    → Distinct Text-discrete l
    → Within l c
    → (j i : Text) (f g g' : CachedFile) → get Text-discrete j l ≡ some f
    → get Text-discrete i l ≡ some g
    → removes g.path ≡ true
    → get Text-discrete j (evict removes need l (ev, c)).1.files ≡ none
    → get Text-discrete i (evict removes need l (ev, c)).1.files ≡ some g'
    → f.last_accessed ≤ g.last_accessed
unfolding evict
evict-oldest removes need [] ev c s d w j i f g g' gj gi r gone stays = cc (gone, w j f gj)
evict-oldest removes need (e ∷ l) ev c s d w j i f g g' gj gi r gone stays =
    go (leb_ℤ need ev) (removes e.1.path) refl gone stays
      (λ x y gj' gi'.
        evict-oldest removes need l (ev +ℤ e.1.size) (drop_file e c) s.1 d.1
          (drop_file-Within e l c d w) j i f g g' gj' gi' r x y)
      (λ x y gj' gi'.
        evict-oldest removes need l ev c s.1 d.1 (rest-Within e l c d w) j i f g g' gj' gi' r x y)
  where
    go :
        (enough removed : Bool)
        → removes e.1.path ≡ removed
        → get Text-discrete j
            (if enough then (ev, c) else evict removes need l (evict_one removed e (ev, c))).1.files
          ≡ none
        → get Text-discrete i
            (if enough then (ev, c) else evict removes need l (evict_one removed e (ev, c))).1.files
          ≡ some g'
        → (get Text-discrete j (evict removes need l (ev +ℤ e.1.size, drop_file e c)).1.files ≡ none
            → get Text-discrete i (evict removes need l (ev +ℤ e.1.size, drop_file e c)).1.files
              ≡ some g'
            → get Text-discrete j l ≡ some f
            → get Text-discrete i l ≡ some g
            → f.last_accessed ≤ g.last_accessed)
        → (get Text-discrete j (evict removes need l (ev, c)).1.files ≡ none
            → get Text-discrete i (evict removes need l (ev, c)).1.files ≡ some g'
            → get Text-discrete j l ≡ some f
            → get Text-discrete i l ≡ some g
            → f.last_accessed ≤ g.last_accessed)
        → f.last_accessed ≤ g.last_accessed
    go true removed q x y h k = cc (x, w j f gj)
    go false true q x y h k = elim (Text-discrete e.0 i) [
      | yes same ↦
          let away =
            absent-evict removes need i l (ev +ℤ e.1.size) (drop_file e c)
              (ground (arith, get-delete Text-discrete e.0 i c.files)) in
          cc (away, y)
      | no n ↦ settle e l j i f g s.0 n gj gi (h x y)
    ]
    go false false q x y h k = elim (Text-discrete e.0 i) [
      | yes same ↦ cc (q, r, head-get e l i g same gi)
      | no n ↦ settle e l j i f g s.0 n gj gi (k x y)
    ]

pub files-save_metadata : (b : Bool) (c : FileCache) → (save_metadata b c).files ≡ c.files
files-save_metadata true c = refl
files-save_metadata false c = refl

-- If the accounts are right before, a file that making room evicts was accessed no later than any
-- file that stays although it could be removed.
pub ensure_space-oldest :
    (removes : Text → Bool) (saves : Bool) (required : ℤ) (c : FileCache)
    → Accounted c
    → (j i : Text) (f g g' : CachedFile) → get Text-discrete j c.files ≡ some f
    → get Text-discrete i c.files ≡ some g
    → removes g.path ≡ true
    → get Text-discrete j (ensure_space removes saves required c).files ≡ none
    → get Text-discrete i (ensure_space removes saves required c).files ≡ some g'
    → f.last_accessed ≤ g.last_accessed
unfolding ensure_space
ensure_space-oldest removes saves required c a j i f g g' gj gi r gone stays =
    let need = (c.size +ℤ required) -ℤ c.max_cache_size in
    let sorted = sort_files (length c.files) c.files in
    let (d, same) = sort_files-get (length c.files) c.files a.0 in
    go (leb_ℤ (c.size +ℤ required) c.max_cache_size) (evict removes need sorted (pos 0, c))
      (evict-oldest removes need sorted (pos 0) c
        (sort_files-Sorted (length c.files) c.files (omega arith)) d (λ k x h. sym (same k) ∙ h) j i
        f g g' (same j ∙ gj) (same i ∙ gi) r)
      gone stays
  where
    go :
        (fits : Bool) (s : ℤ × FileCache)
        → (get Text-discrete j s.1.files ≡ none
            → get Text-discrete i s.1.files ≡ some g'
            → f.last_accessed ≤ g.last_accessed)
        → get Text-discrete j (if fits then c else save_metadata saves s.1).files ≡ none
        → get Text-discrete i (if fits then c else save_metadata saves s.1).files ≡ some g'
        → f.last_accessed ≤ g.last_accessed
    go true s h x y = cc (x, gj)
    go false s h x y =
        let same = files-save_metadata saves s.1 in
        h (sym (ap (get Text-discrete j) same) ∙ x) (sym (ap (get Text-discrete i) same) ∙ y)
