-- ===== src/Discovery/Search/Rank.antt =====
-- The number of leading entries below a hash: the position that the binary searches look for.
use ifrit.Prelude.{
  ◌≢◌, ℕ, zero, suc, ◌≤◌, ◌<◌, Ordering, ◌≡◌, refl, subst, refl, ◌⊎◌, some, List, [], ◌∷◌, arith,
  Bytes, length, get_elem?,
}
use native.Mathlib.Decide.{dec_lt}
use ifrit.Bytes.{
  bytes_compare, bytes_compare_trans, bytes_compare-gt, bytes_compare-lt, bytes_compare-eq,
}
use ifrit.Discovery.Types.{RingId, compare_id}

-- Every entry of the list has a greater hash.
abbrev pub AllAbove : Bytes → List RingId → Type 0
AllAbove h [] = Unit {0}
AllAbove h (x ∷ xs) = (bytes_compare h x.hash ≡ Ordering.lt) × AllAbove h xs

-- Strictly ascending hashes.
abbrev pub IsSorted : List RingId → Type 0
IsSorted [] = Unit {0}
IsSorted (x ∷ xs) = AllAbove x.hash xs × IsSorted xs

unfoldable pub rank : Bytes → List RingId → ℕ
rank h [] = 0
rank h (x ∷ xs) = elim (compare_id x h) [ Ordering.lt ↦ suc (rank h xs) | _ ↦ 0 ]

pub rank-le : (h : Bytes) (s : List RingId) → rank h s ≤ length s
unfolding rank
rank-le h [] = omega arith
rank-le h (x ∷ xs) = ground (arith, rank-le h xs)

-- Below the rank every entry is smaller.
pub rank_below :
    (h : Bytes) (s : List RingId) (i : ℕ) (e : RingId)
    → get_elem? s i ≡ some e
    → i < rank h s
    → compare_id e h ≡ Ordering.lt
unfolding rank
rank_below h [] i e q p = ground arith
rank_below h (x ∷ xs) zero e q p = ground arith
rank_below h (x ∷ xs) (suc i) e q p = ground (arith, rank_below h xs i e)

pub AllAbove-trans :
    (a b : Bytes) (s : List RingId) → bytes_compare a b ≡ Ordering.lt → AllAbove b s → AllAbove a s
AllAbove-trans a b [] h k = tt
AllAbove-trans a b (x ∷ xs) h k =
    (bytes_compare_trans a b x.hash h k.0, AllAbove-trans a b xs h k.1)

pub AllAbove-get :
    (a : Bytes) (s : List RingId) (i : ℕ) (e : RingId)
    → AllAbove a s
    → get_elem? s i ≡ some e
    → bytes_compare a e.hash ≡ Ordering.lt
AllAbove-get a [] i e h q = ground arith
AllAbove-get a (x ∷ xs) zero e h q = ground arith
AllAbove-get a (x ∷ xs) (suc i) e h q = AllAbove-get a xs i e h.1 q

-- What lies above an entry that is not below `h` lies above `h`.
beyond_gt :
    (h : Bytes) (x e : RingId)
    → compare_id x h ≡ Ordering.gt
    → bytes_compare x.hash e.hash ≡ Ordering.lt
    → compare_id e h ≡ Ordering.gt
unfolding compare_id
beyond_gt h x e g k =
    bytes_compare-lt h e.hash (bytes_compare_trans h x.hash e.hash (bytes_compare-gt x.hash h g) k)

beyond_eq :
    (h : Bytes) (x e : RingId)
    → compare_id x h ≡ Ordering.eq
    → bytes_compare x.hash e.hash ≡ Ordering.lt
    → compare_id e h ≡ Ordering.gt
unfolding compare_id
beyond_eq h x e g k =
    bytes_compare-lt h e.hash
      (subst (λ y. bytes_compare y e.hash ≡ Ordering.lt) (bytes_compare-eq x.hash h g) k)

-- From the rank on no entry is smaller, and past it every entry is greater.
pub rank_above :
    (h : Bytes) (s : List RingId) (i : ℕ) (e : RingId)
    → IsSorted s
    → get_elem? s i ≡ some e
    → rank h s ≤ i
    → (compare_id e h ≡ Ordering.gt) ⊎ ((compare_id e h ≡ Ordering.eq) × (i ≡ rank h s))
unfolding rank
rank_above h [] i e o q p = ground arith
rank_above h (x ∷ xs) zero e o q p = ground arith
rank_above h (x ∷ xs) (suc i) e o q p = ground (
  arith,
  beyond_gt h x e,
  beyond_eq h x e,
  AllAbove-get x.hash xs i e o.0,
  rank_above h xs i e o.1,
)

pub get_elem?-some {ℓ} :
    {A : Type ℓ} (s : List A) (i : ℕ) → i < length s → (e : A) × (get_elem? s i ≡ some e)
get_elem?-some [] i h = absurd (omega arith)
get_elem?-some (x ∷ xs) zero h = (x, refl)
get_elem?-some (x ∷ xs) (suc i) h = get_elem?-some xs i (omega arith)

-- What one comparison tells about the rank.
abbrev pub Tells : Ordering → ℕ → ℕ → Type 0
Tells Ordering.lt i r = i < r
Tells Ordering.gt i r = r ≤ i
Tells Ordering.eq i r = i ≡ r

Tells-case :
    (c : Ordering) (i r : ℕ)
    → (i < r → c ≡ Ordering.lt)
    → (r ≤ i → (c ≡ Ordering.gt) ⊎ ((c ≡ Ordering.eq) × (i ≡ r)))
    → Tells c i r
Tells-case Ordering.lt i r f g = ground (arith, dec_lt i r)
Tells-case Ordering.gt i r f g = ground (arith, dec_lt i r)
Tells-case Ordering.eq i r f g = ground (arith, dec_lt i r)

-- A binary search may read the entry at any index: the comparison says on which side the rank is.
pub probe_Tells :
    (h : Bytes) (s : List RingId) (i : ℕ) (e : RingId)
    → IsSorted s
    → get_elem? s i ≡ some e
    → Tells (compare_id e h) i (rank h s)
probe_Tells h s i e o q =
    Tells-case (compare_id e h) i (rank h s) (rank_below h s i e q) (rank_above h s i e o q)

pub get_elem?_bound {ℓ} :
    {A : Type ℓ} (s : List A) (i : ℕ) (e : A) → get_elem? s i ≡ some e → i < length s
get_elem?_bound [] i e q = ground arith
get_elem?_bound (x ∷ xs) zero e q = omega arith
get_elem?_bound (x ∷ xs) (suc i) e q = omega (arith, get_elem?_bound xs i e q)

-- No entry of the list has the hash.
abbrev pub IsAbsent : Bytes → List RingId → Type 0
IsAbsent h s = (i : ℕ) (e : RingId) → get_elem? s i ≡ some e → compare_id e h ≢ Ordering.eq
