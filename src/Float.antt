-- ===== src/Float.antt =====
-- Go's float64 as an interface: the program compares, multiplies and converts such numbers and
-- implements none of it. `exact` is the interface over the integers, with the conversion to a 64-bit
-- `int` as amd64 makes it: a number out of its range becomes the least one.
use triggerx_backend.Prelude.{Bool, ◌&&◌, ◌≡◌, arith, if◌then◌else◌}
use triggerx_backend.Prelude.Int.{ℤ, pos, negsuc, ltb_ℤ, leb_ℤ, eqb_ℤ, ◌*ℤ◌, ◌≤ℤ◌}

-- The range of a 64-bit `int`.
abbrev pub IsInt64 : ℤ → Type 0
IsInt64 v = (negsuc 9223372036854775807 ≤ℤ v) × (v ≤ℤ pos 9223372036854775807)

unfoldable pub to_int64 : ℤ → ℤ
to_int64 v =
    if leb_ℤ (negsuc 9223372036854775807) v && leb_ℤ v (pos 9223372036854775807)
    then v
    else negsuc 9223372036854775807

pub to_int64-IsInt64 : (v : ℤ) → IsInt64 v → to_int64 v ≡ v
unfolding to_int64
to_int64-IsInt64 v h = ground (arith, h.0, h.1)

pub record Float64 : Type 1 where
  pub F : Type 0
  pub lt : F → F → Bool
  pub le : F → F → Bool
  pub eq : F → F → Bool
  pub mul : F → F → F
  -- `float64(n)` and `int(f)`
  pub of_int : ℤ → F
  pub to_int : F → ℤ

abbrev pub exact : Float64
exact = record {
  F = ℤ;
  lt = ltb_ℤ;
  le = leb_ℤ;
  eq = eqb_ℤ;
  mul = λ a b. a *ℤ b;
  of_int = λ n. n;
  to_int = to_int64;
}
