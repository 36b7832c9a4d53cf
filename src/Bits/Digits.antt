-- ===== src/Bits/Digits.antt =====
-- Half and lowest digit of a bitwise and, and of a bitwise or.
use Prim.Native.Nat.{bit_and, bit_or, bit_and-bitwise, bit_or-bitwise, digits, min, max}
use ifrit.Prelude.{ℕ, zero, suc, ◌+◌, ◌*◌, ◌/◌, ◌%◌, ◌≤◌, ◌≡◌, refl, ap, arith}

-- Any count of rounds that covers the first number gives the same result.
module _ (z : ℕ → ℕ) (f : ℕ → ℕ → ℕ) where
  rounds_agree : (a k l b : ℕ) → a ≤ k → a ≤ l → digits z f k a b ≡ digits z f l a b
  rounds_agree zero zero zero b p q = refl
  rounds_agree zero zero (suc l) b p q = refl
  rounds_agree zero (suc k) zero b p q = refl
  rounds_agree zero (suc k) (suc l) b p q = refl
  rounds_agree (suc a) zero l b p q = absurd (omega arith)
  rounds_agree (suc a) (suc k) zero b p q = absurd (omega arith)
  rounds_agree (suc a) (suc k) (suc l) b p q =
      ap (λ (x : ℕ). x * 2 + f (suc a % 2) (b % 2))
        (rounds_agree (suc a / 2) k l (b / 2) (omega arith) (omega arith))

and_zero_left : (b : ℕ) → bit_and 0 b ≡ 0
and_zero_left b = bit_and-bitwise 0 b

or_zero_left : (b : ℕ) → bit_or 0 b ≡ b
or_zero_left b = bit_or-bitwise 0 b

and_digits : (a b : ℕ) → bit_and a b ≡ bit_and (a / 2) (b / 2) * 2 + min (a % 2) (b % 2)
and_digits zero b = omega (arith, and_zero_left b, and_zero_left (b / 2))
and_digits (suc a) b =
    let half =
      rounds_agree (λ b. zero) min (suc a / 2) a (suc a / 2) (b / 2) (omega arith) (omega arith) in
    omega (arith, half, bit_and-bitwise (suc a) b, bit_and-bitwise (suc a / 2) (b / 2))

or_digits : (a b : ℕ) → bit_or a b ≡ bit_or (a / 2) (b / 2) * 2 + max (a % 2) (b % 2)
or_digits zero b = omega (arith, or_zero_left b, or_zero_left (b / 2))
or_digits (suc a) b =
    let half =
      rounds_agree (λ b. b) max (suc a / 2) a (suc a / 2) (b / 2) (omega arith) (omega arith) in
    omega (arith, half, bit_or-bitwise (suc a) b, bit_or-bitwise (suc a / 2) (b / 2))

pub bit_and-half : (a b : ℕ) → bit_and a b / 2 ≡ bit_and (a / 2) (b / 2)
bit_and-half a b = omega (arith, and_digits a b)

pub bit_and-low : (a b : ℕ) → bit_and a b % 2 ≡ min (a % 2) (b % 2)
bit_and-low a b = omega (arith, and_digits a b)

pub bit_or-half : (a b : ℕ) → bit_or a b / 2 ≡ bit_or (a / 2) (b / 2)
bit_or-half a b = omega (arith, or_digits a b)

pub bit_or-low : (a b : ℕ) → bit_or a b % 2 ≡ max (a % 2) (b % 2)
bit_or-low a b = omega (arith, or_digits a b)

pub low_half : (a : ℕ) → a ≡ a / 2 * 2 + a % 2
low_half a = omega arith
