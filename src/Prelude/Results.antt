-- ===== src/Prelude/Results.antt =====
-- A Go function that returns `(T, error)`, and may panic: a value, an error of the component's own
-- type, or the panic.
use mathlib.Core.Path.{◌≡◌, refl}
use mathlib.Core.Bool.{Bool, true, false}

pub data Result {ℓ κ} (E : Type ℓ) (A : Type κ) : Type (ℓ ⊔ κ) where
  ok : A → Result E A
  err : E → Result E A
  panic : Result E A

-- What follows a value; an error and a panic end the function.
abbrev pub ◌>>=◌ {ℓ κ μ} :
    {E : Type ℓ} {A : Type κ} {B : Type μ} → Result E A → (A → Result E B) → Result E B
panic >>= next = panic
err reason >>= next = err reason
ok value >>= next = next value

infixl 5 ◌>>=◌
-- After a check, which has no value.
abbrev pub ◌>>◌ {ℓ κ} : {E : Type ℓ} {B : Type κ} → Result E (Unit {0}) → Result E B → Result E B
check >> rest = check >>= (λ done. rest)

infixl 5 ◌>>◌
-- `if b { return e }`
abbrev pub reject_if {ℓ} : {E : Type ℓ} → Bool → E → Result E (Unit {0})
reject_if true e = err e
reject_if false e = ok tt

-- A value at the end comes from a value at each stage.
pub >>=-eq-ok {ℓ κ μ} :
    {E : Type ℓ} {A : Type κ} {B : Type μ} (start : Result E A) (next : A → Result E B) {final : B}
    → (start >>= next) ≡ ok final
    → (value : A) × (start ≡ ok value) × (next value ≡ ok final)
>>=-eq-ok panic next ends = cc
>>=-eq-ok (err reason) next ends = cc
>>=-eq-ok (ok value) next ends = (value, refl, ends)

pub >>-eq-ok {ℓ κ} :
    {E : Type ℓ} {B : Type κ} (c : Bool) (e : E) {m : Result E B} {b : B}
    → (reject_if c e >> m) ≡ ok b
    → (c ≡ false) × (m ≡ ok b)
>>-eq-ok true e h = cc
>>-eq-ok false e h = (refl, h)

pub ok-eq {ℓ κ} : {E : Type ℓ} {A : Type κ} {a b : A} → ◌≡◌ {A = Result E A} (ok a) (ok b) → a ≡ b
ok-eq h = cc
