-- ===== src/TimeScheduler/Batches.antt =====
-- The batches of a poll: they are the tasks, in order, and none is too long.
use triggerx_backend.Prelude.{
  ℕ, zero, suc, ◌+◌, ◌-◌, ◌≤◌, ◌<◌, ◌≡◌, refl, sym, ap, ◌∙◌, Bool, true, false, none, some, List,
  [], ◌∷◌, ◌++◌, length, take, drop, length-drop, length-take, take-drop, take-all, drop-all, ltb,
  ltb→lt, if◌then◌else◌, All, arith,
}
use triggerx_backend.TimeScheduler.Schedule.{slice, end_of, and_batches, batches}

abbrev pub concat : {A : Type 0} → List (List A) → List A
concat [] = []
concat (b ∷ bs) = b ++ concat bs

module _ {A : Type 0} where
  -- What the loop leaves of the tasks from an index on.
  abbrev pub AreBatches : ℕ → List A → List (List A) → Type 0
  AreBatches size rest bs = (concat bs ≡ rest) × All (λ (b : List A). length b ≤ size) bs

  pub drop-none : (xs : List A) → drop 0 xs ≡ xs
  drop-none [] = refl
  drop-none (x ∷ xs) = refl

  append-nil : (xs : List A) → xs ++ [] ≡ xs
  append-nil [] = refl
  append-nil (x ∷ xs) = ap (λ (t : List A). x ∷ t) (append-nil xs)

  slice-drop :
      (size i : ℕ) (xs : List A)
      → i < length xs
      → (slice i (end_of (i + size) (length xs)) xs ++ drop (i + size) xs ≡ drop i xs)
        × (length (slice i (end_of (i + size) (length xs)) xs) ≤ size)
  slice-drop size i xs h = go (ltb (length xs) (i + size)) refl
    where
      go :
          (b : Bool)
          → ltb (length xs) (i + size) ≡ b
          → (take ((if b then length xs else i + size) - i) (drop i xs) ++ drop (i + size) xs
              ≡ drop i xs)
            × (length (take ((if b then length xs else i + size) - i) (drop i xs)) ≤ size)
      go true e = (
        ap (λ (t : List A). t ++ drop (i + size) xs)
              (take-all (length xs - i) (drop i xs) (omega (arith, length-drop i xs)))
            ∙ ap (λ (t : List A). drop i xs ++ t)
                (drop-all (i + size) xs (omega (arith, ltb→lt (length xs) (i + size) e)))
            ∙ append-nil (drop i xs),
        omega (arith, length-take (length xs - i) (drop i xs), ltb→lt (length xs) (i + size) e),
      )
      go false e = (
        ap (λ (n : ℕ). take n (drop i xs) ++ drop (i + size) xs) (omega arith)
            ∙ take-drop i size xs,
        omega (arith, length-take (i + size - i) (drop i xs)),
      )

  pub batches-AreBatches :
      (fuel size i : ℕ) (xs : List A)
      → 0 < size
      → length xs ≤ fuel + i
      → (bs : List (List A)) × (batches fuel size i xs ≡ some bs) × AreBatches size (drop i xs) bs
  unfolding batches
  batches-AreBatches zero size i xs h f =
      ([], ground arith, (sym (drop-all i xs (omega (arith, f))), tt))
  batches-AreBatches (suc fuel) size i xs h f =
      go (ltb i (length xs)) refl
        (batches-AreBatches fuel size (i + size) xs h (omega (arith, f, h)))
    where
      go :
          (b : Bool)
          → ltb i (length xs) ≡ b
          → ((bs : List (List A)) × (batches fuel size (i + size) xs ≡ some bs)
              × AreBatches size (drop (i + size) xs) bs)
          → (bs : List (List A)) × ((if b
                then and_batches
                    (slice i (end_of (i + size) (length xs)) xs)
                    (batches fuel size (i + size) xs)
                else some [])
              ≡ some bs)
            × AreBatches size (drop i xs) bs
      go false e rest = ([], refl, (sym (drop-all i xs (ground (arith, e))), tt))
      go true e (bs, q, (c, l)) =
          let (same, short) = slice-drop size i xs (ltb→lt i (length xs) e) in
          (
            slice i (end_of (i + size) (length xs)) xs ∷ bs,
            ap (and_batches (slice i (end_of (i + size) (length xs)) xs)) q,
            (
              ap (λ (t : List A). slice i (end_of (i + size) (length xs)) xs ++ t) c ∙ same,
              (short, l),
            ),
          )

  -- A batch size of zero keeps the loop where it is: no fuel is enough.
  pub batches-zero : (fuel : ℕ) (x : A) (xs : List A) → batches fuel 0 0 (x ∷ xs) ≡ none
  unfolding batches
  batches-zero zero x xs = ground arith
  batches-zero (suc fuel) x xs = ground (arith, batches-zero fuel x xs)
