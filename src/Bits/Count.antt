-- ===== src/Bits/Count.antt =====
-- `has_bit` reads one bit, and `bits.OnesCount32` counts the bits.
use Prim.Native.Nat.{bit_and}
use native.Mathlib.Nat.{pow-suc, one-le-pow}
use ifrit.Prelude.{ℕ, zero, suc, ◌+◌, ◌*◌, ◌/◌, ◌^◌, ◌≤◌, ◌<◌, ◌≡◌, ◌≢◌, refl, ap, arith, ◌==◌}
use ifrit.Bits.{one_shl, has_bit, ones_below}
use ifrit.Bits.Digits.{bit_and-half, bit_and-low, low_half}
use ifrit.Bits.Laws.{bit, bit-le-one, pow-half, pow-low}

and_nothing : (k a : ℕ) → a ≤ k → bit_and a 0 ≡ 0
and_nothing k zero h = refl
and_nothing zero (suc a) h = absurd (omega arith)
and_nothing (suc k) (suc a) h = omega (
  arith,
  low_half (bit_and (suc a) 0),
  bit_and-half (suc a) 0,
  bit_and-low (suc a) 0,
  and_nothing k (suc a / 2) (omega arith),
)

and_pow : (j n : ℕ) → bit_and n (2 ^ j) ≡ bit n j * 2 ^ j
unfolding bit
and_pow zero n = omega (
  arith,
  low_half (bit_and n 1),
  bit_and-half n 1,
  bit_and-low n 1,
  and_nothing (n / 2) (n / 2) (omega arith),
)
and_pow (suc j) n = omega (
  arith,
  low_half (bit_and n (2 ^ suc j)),
  bit_and-half n (2 ^ suc j),
  bit_and-low n (2 ^ suc j),
  ap (bit_and (n / 2)) (pow-half j),
  pow-low j,
  and_pow j (n / 2),
  ap (λ (t : ℕ). bit (n / 2) j * t) (pow-suc 2 j),
)

pub has_bit_iff : (n pos : ℕ) → pos < 32 → has_bit n pos ≡ (bit n pos == 1)
unfolding has_bit one_shl
has_bit_iff n pos h = ground (arith, and_pow pos n, bit-le-one n pos, one-le-pow pos 2)

ones_below-same :
    (w m n : ℕ) → ((i : ℕ) → i < w → bit m i ≡ bit n i) → ones_below w m ≡ ones_below w n
unfolding ones_below bit
ones_below-same zero m n h = refl
ones_below-same (suc w) m n h =
    omega
      (arith, h 0 (omega arith), ones_below-same w (m / 2) (n / 2) (λ i k. h (suc i) (omega arith)))

-- Setting one bit adds one to the count.
pub ones_below_more :
    (w j m n : ℕ)
    → j < w
    → bit m j ≡ 1
    → bit n j ≡ 0
    → ((i : ℕ) → i < w → i ≢ j → bit m i ≡ bit n i)
    → ones_below w m ≡ ones_below w n + 1
unfolding ones_below bit
ones_below_more zero j m n h p q r = absurd (omega arith)
ones_below_more (suc w) zero m n h p q r =
    omega (
      arith,
      p,
      q,
      ones_below-same w (m / 2) (n / 2) (λ i k. r (suc i) (omega arith) (omega arith)),
    )
ones_below_more (suc w) (suc j) m n h p q r = omega (
  arith,
  r 0 (omega arith) (omega arith),
  ones_below_more w j (m / 2) (n / 2) (omega arith) p q
      (λ i k d. r (suc i) (omega arith) (omega arith)),
)

-- With fewer ones than bits, a bit is 0; with none of them 0, all are counted.
pub ones_below_full : (w n : ℕ) → ((i : ℕ) → i < w → bit n i ≡ 1) → ones_below w n ≡ w
unfolding ones_below bit
ones_below_full zero n h = refl
ones_below_full (suc w) n h =
    omega (arith, h 0 (omega arith), ones_below_full w (n / 2) (λ i k. h (suc i) (omega arith)))

pub ones_below-le : (w n : ℕ) → ones_below w n ≤ w
unfolding ones_below
ones_below-le zero n = omega arith
ones_below-le (suc w) n = omega (arith, ones_below-le w (n / 2))

-- Bits that are 0 do not count.
pub ones_below_above :
    (w k n : ℕ) → w ≤ k → ((i : ℕ) → w ≤ i → i < k → bit n i ≡ 0) → ones_below k n ≡ ones_below w n
unfolding ones_below bit
ones_below_above zero zero n h z = refl
ones_below_above (suc w) zero n h z = absurd (omega arith)
ones_below_above zero (suc k) n h z = omega (
  arith,
  z 0 (omega arith) (omega arith),
  ones_below_above zero k (n / 2) (omega arith) (λ i a b. z (suc i) (omega arith) (omega arith)),
)
ones_below_above (suc w) (suc k) n h z = omega (
  arith,
  ones_below_above w k (n / 2) (omega arith) (λ i a b. z (suc i) (omega arith) (omega arith)),
)
