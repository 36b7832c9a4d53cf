-- ===== src/Bytes.antt =====
-- Go's `bytes.Compare`, `bytes.Equal` and `fmt.Sprintf("%d", n)`, which core/discovery/ring.go
-- uses.
use ifrit.Prelude.{
  ℕ, zero, suc, ◌+◌, ◌/◌, ◌%◌, compare, Ordering, ◌≡◌, refl, Bool, true, false, [], ◌∷◌, ◌++◌,
  arith, Bytes, ltb, if◌then◌else◌,
}

-- The result -1, 0, 1 of Go is lt, eq, gt.
unfoldable pub bytes_compare : Bytes → Bytes → Ordering
bytes_compare [] [] = Ordering.eq
bytes_compare [] (y ∷ ys) = Ordering.lt
bytes_compare (x ∷ xs) [] = Ordering.gt
bytes_compare (x ∷ xs) (y ∷ ys) = elim (compare x y) [
  | Ordering.lt ↦ Ordering.lt
  | Ordering.gt ↦ Ordering.gt
  | Ordering.eq ↦ bytes_compare xs ys
]

pub bytes_compare_refl : (a : Bytes) → bytes_compare a a ≡ Ordering.eq
unfolding bytes_compare
bytes_compare_refl [] = refl
bytes_compare_refl (x ∷ xs) = ground (arith, bytes_compare_refl xs)

pub bytes_compare-eq : (a b : Bytes) → bytes_compare a b ≡ Ordering.eq → a ≡ b
unfolding bytes_compare
bytes_compare-eq [] [] h = refl
bytes_compare-eq [] (y ∷ ys) h = ground arith
bytes_compare-eq (x ∷ xs) [] h = ground arith
bytes_compare-eq (x ∷ xs) (y ∷ ys) h = ground (arith, bytes_compare-eq xs ys)

pub opposite : Ordering → Ordering
opposite Ordering.lt = Ordering.gt
opposite Ordering.eq = Ordering.eq
opposite Ordering.gt = Ordering.lt

swapped : (a b : Bytes) → bytes_compare b a ≡ opposite (bytes_compare a b)
unfolding bytes_compare opposite
swapped [] [] = refl
swapped [] (y ∷ ys) = refl
swapped (x ∷ xs) [] = refl
swapped (x ∷ xs) (y ∷ ys) = ground (arith, swapped xs ys)

pub bytes_compare-gt :
    (a b : Bytes) → bytes_compare a b ≡ Ordering.gt → bytes_compare b a ≡ Ordering.lt
unfolding opposite
bytes_compare-gt a b h = ground (arith, swapped a b)

pub bytes_compare-lt :
    (a b : Bytes) → bytes_compare a b ≡ Ordering.lt → bytes_compare b a ≡ Ordering.gt
unfolding opposite
bytes_compare-lt a b h = ground (arith, swapped a b)

pub bytes_compare_trans :
    (a b c : Bytes)
    → bytes_compare a b ≡ Ordering.lt
    → bytes_compare b c ≡ Ordering.lt
    → bytes_compare a c ≡ Ordering.lt
unfolding bytes_compare
bytes_compare_trans [] [] c h k = ground arith
bytes_compare_trans [] (y ∷ ys) [] h k = ground arith
bytes_compare_trans [] (y ∷ ys) (z ∷ zs) h k = refl
bytes_compare_trans (x ∷ xs) [] c h k = ground arith
bytes_compare_trans (x ∷ xs) (y ∷ ys) [] h k = ground arith
bytes_compare_trans (x ∷ xs) (y ∷ ys) (z ∷ zs) h k = ground (arith, bytes_compare_trans xs ys zs)

-- `bytes.Equal`.
unfoldable pub bytes_equal : Bytes → Bytes → Bool
bytes_equal a b = elim (bytes_compare a b) [ Ordering.eq ↦ true | _ ↦ false ]

-- The decimal digits of a number, as `%d` prints it.
digits_of : ℕ → ℕ → Bytes
digits_of zero n = []
digits_of (suc f) n =
    let rest = digits_of f (n / 10) in
    if ltb n 10 then (48 + n) ∷ [] else rest ++ ((48 + n % 10) ∷ [])

unfoldable pub itoa : ℕ → Bytes
unfolding digits_of
itoa n = digits_of (suc n) n

itoa_runs : itoa 1032 ≡ 49 ∷ 48 ∷ 51 ∷ 50 ∷ []
unfolding itoa
itoa_runs = refl
