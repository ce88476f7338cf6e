-- ===== src/Prelude/Decimal.antt =====
-- Decimal numerals, as `strconv` and `math/big` write and read them.
use Prim.Native.Nat.{ℕ, zero, suc, ◌+◌, ◌-◌, ◌*◌, ◌/◌, ◌%◌, ◌≤◌, ◌<◌}
use mathlib.Core.Path.{◌≡◌, refl, sym, ap, ◌∙◌}
use mathlib.Core.Bool.{Bool, true, false, ◌&&◌}
use mathlib.Core.Option.{Option, none, some}
use mathlib.Core.List.{[], ◌∷◌, ◌++◌}
use native.Mathlib.Omega.{arith}
use triggerx_backend.Prelude.Tests.{ltb, leb, if◌then◌else◌, some-eq}
use triggerx_backend.Prelude.Texts.{Text}

-- 48 is the character 0. The fuel is the number itself, which has fewer digits.
unfoldable pub digits : ℕ → ℕ → Text
digits zero n = (48 + n) ∷ []
digits (suc fuel) n =
    let front = digits fuel (n / 10) in
    if ltb n 10 then (48 + n) ∷ [] else front ++ ((48 + n % 10) ∷ [])

unfoldable pub format_int : ℕ → Text
unfolding digits
format_int n = digits n n

abbrev pub is_digit : ℕ → Bool
is_digit x = leb 48 x && ltb x 58

unfoldable pub read_digits : ℕ → Text → Option ℕ
read_digits acc [] = some acc
read_digits acc (x ∷ t) =
    let rest = read_digits (acc * 10 + (x - 48)) t in if is_digit x then rest else none

unfoldable pub parse_int : Text → Option ℕ
unfolding read_digits
parse_int [] = none
parse_int (x ∷ t) = read_digits 0 (x ∷ t)

read_digits-append :
    (acc n d : ℕ) (t : Text)
    → read_digits acc t ≡ some n
    → d < 10
    → read_digits acc (t ++ ((48 + d) ∷ [])) ≡ some (n * 10 + d)
unfolding read_digits
read_digits-append acc n d [] e h = ground (arith, some-eq e)
read_digits-append acc n d (x ∷ t) e h =
    ground (arith, read_digits-append (acc * 10 + (x - 48)) n d t)

read_digits-digits : (fuel n : ℕ) → n ≤ fuel → read_digits 0 (digits fuel n) ≡ some n
unfolding read_digits digits
read_digits-digits zero n h = ground arith
read_digits-digits (suc fuel) n h =
    go (ltb n 10) refl (λ l. read_digits-digits fuel (n / 10) (omega arith))
  where
    go :
        (b : Bool)
        → ltb n 10 ≡ b
        → (10 ≤ n → read_digits 0 (digits fuel (n / 10)) ≡ some (n / 10))
        → read_digits 0 (if b then (48 + n) ∷ [] else digits fuel (n / 10) ++ ((48 + n % 10) ∷ []))
          ≡ some n
    go true e ih = ground arith
    go false e ih =
        read_digits-append 0 (n / 10) (n % 10) (digits fuel (n / 10)) (ih (ground arith))
          (omega arith)
        ∙ ap some (omega arith)

parse_int-append : (t : Text) (x : ℕ) → parse_int (t ++ (x ∷ [])) ≡ read_digits 0 (t ++ (x ∷ []))
unfolding parse_int
parse_int-append [] x = refl
parse_int-append (y ∷ t) x = refl

parse_int-digits : (fuel n : ℕ) → parse_int (digits fuel n) ≡ read_digits 0 (digits fuel n)
unfolding digits
parse_int-digits zero n = parse_int-append [] (48 + n)
parse_int-digits (suc fuel) n = go (ltb n 10)
  where
    go :
        (b : Bool)
        → parse_int (if b then (48 + n) ∷ [] else digits fuel (n / 10) ++ ((48 + n % 10) ∷ []))
          ≡ read_digits 0
              (if b then (48 + n) ∷ [] else digits fuel (n / 10) ++ ((48 + n % 10) ∷ []))
    go true = parse_int-append [] (48 + n)
    go false = parse_int-append (digits fuel (n / 10)) (48 + n % 10)

-- What is written is read back.
pub parse_int-format_int : (n : ℕ) → parse_int (format_int n) ≡ some n
unfolding format_int
parse_int-format_int n = parse_int-digits n n ∙ read_digits-digits n n (omega arith)

pub format_int-injective : (n m : ℕ) → format_int n ≡ format_int m → n ≡ m
format_int-injective n m e =
    some-eq (sym (parse_int-format_int n) ∙ ap parse_int e ∙ parse_int-format_int m)
