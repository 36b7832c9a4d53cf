-- ===== src/Prelude/Steps.antt =====
-- Steps that may panic: `none` is an index out of range, a nil dereference or a division by zero.
use mathlib.Core.Path.{◌≡◌, refl, subst}
use mathlib.Core.Option.{Option, none, some}
use mathlib.Core.Bool.{Bool, true, false}
use ifrit.Prelude.Tests.{if◌then◌else◌}

infixl 5 ◌>>=◌
abbrev pub ◌>>=◌ {ℓ κ} : {A : Type ℓ} {B : Type κ} → Option A → (A → Option B) → Option B
none >>= f = none
some a >>= f = f a

-- Inversion of a chain that did not panic.
pub >>=-eq-some {ℓ κ} :
    {A : Type ℓ} {B : Type κ} (m : Option A) (f : A → Option B) {b : B}
    → (m >>= f) ≡ some b
    → (a : A) × (m ≡ some a) × (f a ≡ some b)
>>=-eq-some none f h = cc
>>=-eq-some (some a) f h = (a, refl, h)

-- The branches of a test whose outcome is known.
pub if-true {ℓ} :
    {A : Type ℓ} {b : Bool} {z : A} (x y : A) → b ≡ true → (if b then x else y) ≡ z → x ≡ z
if-true {z = z} x y q h = subst (λ c. (if c then x else y) ≡ z) q h

pub if-false {ℓ} :
    {A : Type ℓ} {b : Bool} {z : A} (x y : A) → b ≡ false → (if b then x else y) ≡ z → y ≡ z
if-false {z = z} x y q h = subst (λ c. (if c then x else y) ≡ z) q h
