-- ===== src/Bits/Laws.antt =====
-- `set_bit`, `clear_bit` and `has_bit` on the single bits of a number.
use Prim.Native.Nat.{bit_and, bit_or, min, max}
use native.Mathlib.Nat.{pow-suc, one-le-pow, pow-le-pow_right}
use ifrit.Prelude.{ℕ, zero, suc, ◌-◌, ◌*◌, ◌/◌, ◌%◌, ◌^◌, ◌≤◌, ◌<◌, ◌≡◌, ◌≢◌, refl, ap, arith}
use ifrit.Bits.{one_shl, set_bit, clear_bit}
use ifrit.Bits.Digits.{bit_and-half, bit_and-low, bit_or-half, bit_or-low}

-- The digit at a position, 0 or 1.
unfoldable pub bit : ℕ → ℕ → ℕ
bit n zero = n % 2
bit n (suc i) = bit (n / 2) i

pub bit-le-one : (n i : ℕ) → bit n i ≤ 1
unfolding bit
bit-le-one n zero = omega arith
bit-le-one n (suc i) = bit-le-one (n / 2) i

bit-zero : (i : ℕ) → bit 0 i ≡ 0
unfolding bit
bit-zero zero = refl
bit-zero (suc i) = bit-zero i

pub pow-half : (j : ℕ) → 2 ^ suc j / 2 ≡ 2 ^ j
pow-half j = omega (arith, pow-suc 2 j)

pub pow-low : (j : ℕ) → 2 ^ suc j % 2 ≡ 0
pow-low j = omega (arith, pow-suc 2 j)

bit-pow_self : (i : ℕ) → bit (2 ^ i) i ≡ 1
unfolding bit
bit-pow_self zero = refl
bit-pow_self (suc i) = rw (pow-half i) (bit-pow_self i)

bit-pow_ne : (j i : ℕ) → i ≢ j → bit (2 ^ j) i ≡ 0
unfolding bit
bit-pow_ne zero zero h = absurd (h refl)
bit-pow_ne zero (suc i) h = bit-zero i
bit-pow_ne (suc j) zero h = pow-low j
bit-pow_ne (suc j) (suc i) h = rw (pow-half j) (bit-pow_ne j i (λ e. h (ap suc e)))

bit-or : (a b i : ℕ) → bit (bit_or a b) i ≡ max (bit a i) (bit b i)
unfolding bit
bit-or a b zero = bit_or-low a b
bit-or a b (suc i) = rw (bit_or-half a b) (bit-or (a / 2) (b / 2) i)

bit-and : (a b i : ℕ) → bit (bit_and a b) i ≡ min (bit a i) (bit b i)
unfolding bit
bit-and a b zero = bit_and-low a b
bit-and a b (suc i) = rw (bit_and-half a b) (bit-and (a / 2) (b / 2) i)

pub pow-lt : (w j : ℕ) → j < w → 2 * 2 ^ j ≤ 2 ^ w
pow-lt w j h = rw (← pow-suc' j) (pow-le-pow_right (omega arith) h)
  where
    pow-suc' : (j : ℕ) → 2 ^ suc j ≡ 2 * 2 ^ j
    pow-suc' j = omega (arith, pow-suc 2 j)

-- The mask of `clear_bit` at `j`, in `w` bits.
abbrev others : ℕ → ℕ → ℕ
others w j = 2 ^ w - 1 - 2 ^ j

others-half : (w j : ℕ) → j < w → others (suc w) (suc j) / 2 ≡ others w j
others-half w j h = omega (arith, pow-suc 2 w, pow-suc 2 j, one-le-pow j 2, pow-lt w j h)

others-low : (w j : ℕ) → j < w → others (suc w) (suc j) % 2 ≡ 1
others-low w j h = omega (arith, pow-suc 2 w, pow-suc 2 j, one-le-pow j 2, pow-lt w j h)

ones-half : (w : ℕ) → (2 ^ suc w - 1) / 2 ≡ 2 ^ w - 1
ones-half w = omega (arith, pow-suc 2 w, one-le-pow w 2)

others_zero-half : (w : ℕ) → others (suc w) 0 / 2 ≡ 2 ^ w - 1
others_zero-half w = omega (arith, pow-suc 2 w, one-le-pow w 2)

bit-ones : (w i : ℕ) → i < w → bit (2 ^ w - 1) i ≡ 1
unfolding bit
bit-ones zero i h = absurd (omega arith)
bit-ones (suc w) zero h = omega (arith, pow-suc 2 w, one-le-pow w 2)
bit-ones (suc w) (suc i) h = rw (ones-half w) (bit-ones w i (omega arith))

bit-others_self : (w j : ℕ) → j < w → bit (others w j) j ≡ 0
unfolding bit
bit-others_self zero j h = absurd (omega arith)
bit-others_self (suc w) zero h = omega (arith, pow-suc 2 w, one-le-pow w 2)
bit-others_self (suc w) (suc j) h =
    rw (others-half w j (omega arith)) (bit-others_self w j (omega arith))

bit-others_ne : (w j i : ℕ) → j < w → i < w → i ≢ j → bit (others w j) i ≡ 1
unfolding bit
bit-others_ne zero j i h k d = absurd (omega arith)
bit-others_ne (suc w) zero zero h k d = absurd (d refl)
bit-others_ne (suc w) zero (suc i) h k d = rw (others_zero-half w) (bit-ones w i (omega arith))
bit-others_ne (suc w) (suc j) zero h k d = others-low w j (omega arith)
bit-others_ne (suc w) (suc j) (suc i) h k d =
    rw (others-half w j (omega arith))
      (bit-others_ne w j i (omega arith) (omega arith) (λ e. d (ap suc e)))

module _ (n pos : ℕ) (low : pos < 32) where
  one_shl_lem : one_shl pos ≡ 2 ^ pos
  unfolding one_shl
  one_shl_lem = ground arith

  pub set_bit_self : bit (set_bit n pos) pos ≡ 1
  unfolding set_bit
  set_bit_self =
      rw one_shl_lem (omega (arith, bit-or n (2 ^ pos) pos, bit-pow_self pos, bit-le-one n pos))

  pub set_bit_ne : (i : ℕ) → i ≢ pos → bit (set_bit n pos) i ≡ bit n i
  unfolding set_bit
  set_bit_ne i d = rw one_shl_lem (omega (arith, bit-or n (2 ^ pos) i, bit-pow_ne pos i d))

  pub clear_bit_self : bit (clear_bit n pos) pos ≡ 0
  unfolding clear_bit
  clear_bit_self =
      rw one_shl_lem (omega (arith, bit-and n (others 32 pos) pos, bit-others_self 32 pos low))

  pub clear_bit_ne : (i : ℕ) → i < 32 → i ≢ pos → bit (clear_bit n pos) i ≡ bit n i
  unfolding clear_bit
  clear_bit_ne i h d =
      rw one_shl_lem
        (omega (arith, bit-and n (others 32 pos) i, bit-others_ne 32 pos i low h d, bit-le-one n i))
