-- ===== src/FileCache/Order.antt =====
-- The exchange sort of `ensureSpace`: its result holds the same files, the oldest access first.
use triggerx_backend.Prelude.{
  ℕ, zero, suc, ◌≤◌, ◌≡◌, ◌≢◌, refl, ap, ◌∙◌, Bool, true, false, none, [], ◌∷◌, arith, length,
  if◌then◌else◌, Bool-cases, inl, inr, All,
}
use triggerx_backend.Prelude.Int.{ℤ, ◌+ℤ◌, int_laws}
use triggerx_backend.Prelude.Maps.{get, Distinct}
use triggerx_backend.Prelude.Texts.{Text, Text-discrete}
use triggerx_backend.FileCache.State.{Files}
use triggerx_backend.FileCache.Eviction.{Entry, is_after, exchange, sort_files}
use triggerx_backend.FileCache.Accounts.{total}

abbrev pub OlderThan : Entry → Entry → Type 0
OlderThan x y = x.1.last_accessed ≤ y.1.last_accessed

abbrev pub Sorted : Files → Type 0
Sorted [] = Unit
Sorted (x ∷ xs) = All (OlderThan x) xs × Sorted xs

total-exchange :
    (x : Entry) (ys : Files) → total ((exchange x ys).0 ∷ (exchange x ys).1) ≡ total (x ∷ ys)
unfolding exchange total
total-exchange x [] = refl
total-exchange x (y ∷ ys) = elim (Bool-cases (is_after x y)) [
  | inl s ↦ rw s (grind (int_laws, total-exchange y ys))
  | inr s ↦ rw s (grind (int_laws, total-exchange x ys))
]

length-exchange : (x : Entry) (ys : Files) → length (exchange x ys).1 ≡ length ys
unfolding exchange
length-exchange x [] = refl
length-exchange x (y ∷ ys) = ap suc (length-exchange (if is_after x y then y else x) ys)

second_place :
    (a b m : Entry) (rest ys : Files)
    → ((i : Text) → get Text-discrete i (m ∷ rest) ≡ get Text-discrete i (a ∷ ys))
    → a.0 ≢ b.0
    → get Text-discrete b.0 ys ≡ none
    → (j : Text) → get Text-discrete j (m ∷ b ∷ rest) ≡ get Text-discrete j (a ∷ b ∷ ys)
unfolding get
second_place a b m rest ys h n z j = ground (arith, h j, h b.0)

get-exchange :
    (x : Entry) (ys : Files)
    → Distinct Text-discrete (x ∷ ys)
    → (j : Text)
    → get Text-discrete j ((exchange x ys).0 ∷ (exchange x ys).1) ≡ get Text-discrete j (x ∷ ys)
unfolding exchange get
get-exchange x [] d j = refl
get-exchange x (y ∷ ys) d j =
    go (is_after x y) (get-exchange y ys d.1) (get-exchange x ys (ground arith, d.1.1))
  where
    go :
        (s : Bool)
        → ((i : Text)
            → get Text-discrete i ((exchange y ys).0 ∷ (exchange y ys).1)
              ≡ get Text-discrete i (y ∷ ys))
        → ((i : Text)
            → get Text-discrete i ((exchange x ys).0 ∷ (exchange x ys).1)
              ≡ get Text-discrete i (x ∷ ys))
        → get Text-discrete j (
            (exchange (if s then y else x) ys).0
            ∷ (if s then x else y)
            ∷ (exchange (if s then y else x) ys).1)
          ≡ get Text-discrete j (x ∷ y ∷ ys)
    go true hy hx =
        second_place y x (exchange y ys).0 (exchange y ys).1 ys hy (ground arith) (ground arith) j
        ∙ ground arith
    go false hy hx =
        second_place x y (exchange x ys).0 (exchange x ys).1 ys hx (ground arith) (ground arith) j

-- The entry of the round is no younger than what it leaves.
exchange-OlderThan :
    (x : Entry) (ys : Files)
    → OlderThan (exchange x ys).0 x × All (OlderThan (exchange x ys).0) (exchange x ys).1
unfolding exchange
exchange-OlderThan x [] = (omega arith, tt)
exchange-OlderThan x (y ∷ ys) =
    go (is_after x y) refl (exchange-OlderThan y ys) (exchange-OlderThan x ys)
  where
    go :
        (s : Bool)
        → is_after x y ≡ s
        → OlderThan (exchange y ys).0 y × All (OlderThan (exchange y ys).0) (exchange y ys).1
        → OlderThan (exchange x ys).0 x × All (OlderThan (exchange x ys).0) (exchange x ys).1
        → OlderThan (exchange (if s then y else x) ys).0 x
          × All
              (OlderThan (exchange (if s then y else x) ys).0)
              ((if s then x else y) ∷ (exchange (if s then y else x) ys).1)
    go true e hy hx = (ground arith, (ground arith, hy.1))
    go false e hy hx = (hx.0, (ground arith, hx.1))

module _ {κ} (P : Entry → Type κ) where
  All-exchange :
      (x : Entry) (ys : Files) → All P (x ∷ ys) → All P ((exchange x ys).0 ∷ (exchange x ys).1)
  unfolding exchange
  All-exchange x [] h = h
  All-exchange x (y ∷ ys) h =
      go (is_after x y) (All-exchange y ys h.1) (All-exchange x ys (h.0, h.1.1))
    where
      go :
          (s : Bool)
          → All P ((exchange y ys).0 ∷ (exchange y ys).1)
          → All P ((exchange x ys).0 ∷ (exchange x ys).1)
          → All P (
              (exchange (if s then y else x) ys).0
              ∷ (if s then x else y)
              ∷ (exchange (if s then y else x) ys).1)
      go true hy hx = (hy.0, (h.0, hy.1))
      go false hy hx = (hx.0, (h.1.0, hx.1))

  All-sort_files : (n : ℕ) (l : Files) → All P l → All P (sort_files n l)
  unfolding sort_files
  All-sort_files n [] h = tt
  All-sort_files zero (x ∷ xs) h = h
  All-sort_files (suc n) (x ∷ xs) h =
      let (first, rest) = All-exchange x xs h in (first, All-sort_files n (exchange x xs).1 rest)

-- As many rounds as files are enough.
pub sort_files-Sorted : (n : ℕ) (l : Files) → length l ≤ n → Sorted (sort_files n l)
unfolding sort_files
sort_files-Sorted n [] h = tt
sort_files-Sorted zero (x ∷ xs) h = absurd (omega arith)
sort_files-Sorted (suc n) (x ∷ xs) h = (
  All-sort_files (OlderThan (exchange x xs).0) n (exchange x xs).1 (exchange-OlderThan x xs).1,
  sort_files-Sorted n (exchange x xs).1 (ground (arith, length-exchange x xs)),
)

exchange-Distinct :
    (x : Entry) (ys : Files)
    → Distinct Text-discrete (x ∷ ys)
    → Distinct Text-discrete ((exchange x ys).0 ∷ (exchange x ys).1)
unfolding exchange get
exchange-Distinct x [] d = d
exchange-Distinct x (y ∷ ys) d =
    go (is_after x y) (exchange-Distinct y ys d.1) (exchange-Distinct x ys (ground arith, d.1.1))
      (get-exchange y ys d.1) (get-exchange x ys (ground arith, d.1.1))
  where
    go :
        (s : Bool)
        → Distinct Text-discrete ((exchange y ys).0 ∷ (exchange y ys).1)
        → Distinct Text-discrete ((exchange x ys).0 ∷ (exchange x ys).1)
        → ((i : Text)
            → get Text-discrete i ((exchange y ys).0 ∷ (exchange y ys).1)
              ≡ get Text-discrete i (y ∷ ys))
        → ((i : Text)
            → get Text-discrete i ((exchange x ys).0 ∷ (exchange x ys).1)
              ≡ get Text-discrete i (x ∷ ys))
        → Distinct Text-discrete (
            (exchange (if s then y else x) ys).0
            ∷ (if s then x else y)
            ∷ (exchange (if s then y else x) ys).1)
    go true hy hx gy gx = (ground (arith, gy x.0), (ground (arith, gy x.0), hy.1))
    go false hy hx gy gx = (ground (arith, gx y.0), (ground (arith, gx y.0), hx.1))

-- The sort keeps every file, once.
pub sort_files-get :
    (n : ℕ) (l : Files)
    → Distinct Text-discrete l
    → Distinct Text-discrete (sort_files n l)
      × ((j : Text) → get Text-discrete j (sort_files n l) ≡ get Text-discrete j l)
unfolding sort_files get
sort_files-get n [] d = (tt, λ j. refl)
sort_files-get zero (x ∷ xs) d = (d, λ j. refl)
sort_files-get (suc n) (x ∷ xs) d =
    let e = exchange-Distinct x xs d in
    let (s, same) = sort_files-get n (exchange x xs).1 e.1 in
    ((same (exchange x xs).0.0 ∙ e.0, s), λ j. ground (arith, same j, get-exchange x xs d j))

pub total-sort_files : (n : ℕ) (l : Files) → total (sort_files n l) ≡ total l
unfolding sort_files total
total-sort_files n [] = refl
total-sort_files zero (x ∷ xs) = refl
total-sort_files (suc n) (x ∷ xs) =
    ap (λ (t : ℤ). t +ℤ (exchange x xs).0.1.size) (total-sort_files n (exchange x xs).1)
    ∙ total-exchange x xs
