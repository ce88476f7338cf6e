-- ===== src/FileCache/Accounts.antt =====
-- The totals of the file cache's files, through `delete`, `put` and the exchange sort.
use triggerx_backend.Prelude.{
  suc, ◌≡◌, refl, sym, ap, ◌∙◌, none, some, [], ◌∷◌, arith, length, if_pos, if_neg, some-eq,
}
use triggerx_backend.Prelude.Int.{ℤ, pos, ◌+ℤ◌, int_laws}
use triggerx_backend.Prelude.Maps.{get, put, delete, Distinct}
use triggerx_backend.Prelude.Texts.{Text, Text-discrete}
use triggerx_backend.FileCache.State.{CachedFile, Files}

unfoldable pub total : Files → ℤ
total [] = pos 0
total ((k, f) ∷ m) = total m +ℤ f.size

abbrev pub count : Files → ℤ
count m = pos (length m)

pub delete-absent :
    (k : Text) (m : Files) → get Text-discrete k m ≡ none → delete Text-discrete k m ≡ m
unfolding get delete
delete-absent k [] a = refl
delete-absent k ((j, f) ∷ m) a = ground (arith, delete-absent k m)

pub total-delete :
    (k : Text) (f : CachedFile) (m : Files)
    → Distinct Text-discrete m
    → get Text-discrete k m ≡ some f
    → total (delete Text-discrete k m) +ℤ f.size ≡ total m
unfolding get delete total
total-delete k f [] d e = cc
total-delete k f ((j, g) ∷ m) d e = grind (int_laws, total-delete k f m d.1, delete-absent k m)

pub total-put :
    (k : Text) (f : CachedFile) (m : Files)
    → get Text-discrete k m ≡ none
    → total (put Text-discrete k f m) ≡ total m +ℤ f.size
unfolding get put total
total-put k f [] e = refl
total-put k f ((j, g) ∷ m) e = grind (int_laws, total-put k f m)

pub length-delete :
    (k : Text) (f : CachedFile) (m : Files)
    → Distinct Text-discrete m
    → get Text-discrete k m ≡ some f
    → suc (length (delete Text-discrete k m)) ≡ length m
unfolding get delete
length-delete k f [] d e = cc
length-delete k f ((j, g) ∷ m) d e = ground (arith, length-delete k f m d.1, delete-absent k m)

pub length-put :
    (k : Text) (f : CachedFile) (m : Files)
    → get Text-discrete k m ≡ none
    → length (put Text-discrete k f m) ≡ suc (length m)
unfolding get put
length-put k f [] e = refl
length-put k f ((j, g) ∷ m) e = ground (arith, length-put k f m)

-- A file of the same size in the place of another.
pub total-put_again :
    (k : Text) (f g : CachedFile) (m : Files)
    → get Text-discrete k m ≡ some g
    → f.size ≡ g.size
    → (total (put Text-discrete k f m) ≡ total m) × (length (put Text-discrete k f m) ≡ length m)
unfolding get put total
total-put_again k f g [] e s = cc
total-put_again k f g ((j, h) ∷ m) e s = elim (Text-discrete j k) [
  | yes q ↦
      let same =
        some-eq (sym (if_pos (Text-discrete j k) q (some h) (get Text-discrete k m)) ∙ e) in
      rw (if_pos (Text-discrete j k) q ((k, f) ∷ m) ((j, h) ∷ put Text-discrete k f m))
        (ap (λ (x : ℤ). total m +ℤ x) (s ∙ ap (λ (x : CachedFile). x.size) (sym same)), refl)
  | no n ↦
      let (t, l) =
        total-put_again k f g m
          (sym (if_neg (Text-discrete j k) n (some h) (get Text-discrete k m)) ∙ e) s in
      rw (if_neg (Text-discrete j k) n ((k, f) ∷ m) ((j, h) ∷ put Text-discrete k f m))
        (ap (λ (x : ℤ). x +ℤ h.size) t, ap suc l)
]
