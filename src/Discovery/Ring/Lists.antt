-- ===== src/Discovery/Ring/Lists.antt =====
-- The list with a new entry at an index, and the list without the entry at an index.
use ifrit.Prelude.{
  ◌-◌, ◌⊎◌, inl, inr, sym, ◌∙◌, subst, ◌≢◌, ℕ, zero, suc, ◌≤◌, ◌<◌, Ordering, ◌≡◌, refl, ap, some,
  List, [], ◌∷◌, ◌++◌, arith, Bytes, length, get_elem?, take, drop,
}
use native.Mathlib.Decide.{dec_lt, ℕ_discrete}
use ifrit.Bytes.{bytes_compare, bytes_compare-gt}
use ifrit.Discovery.Types.{RingId, compare_id}
use ifrit.Discovery.Search.Rank.{AllAbove, IsSorted, AllAbove-trans, IsAbsent, rank}

module _ {ℓ} {A : Type ℓ} where
  abbrev pub put : ℕ → A → List A → List A
  put r new s = take r s ++ new ∷ drop r s

  abbrev pub cut_at : ℕ → List A → List A
  cut_at r s = take r s ++ drop (suc r) s

  pub length-put : (r : ℕ) (new : A) (s : List A) → length (put r new s) ≡ suc (length s)
  length-put zero new s = refl
  length-put (suc r) new [] = refl
  length-put (suc r) new (x ∷ s) = ap suc (length-put r new s)

  pub put_before :
      (r i : ℕ) (new : A) (s : List A)
      → r ≤ length s
      → i < r
      → get_elem? (put r new s) i ≡ get_elem? s i
  put_before zero i new s h k = absurd (omega arith)
  put_before (suc r) i new [] h k = absurd (omega arith)
  put_before (suc r) zero new (x ∷ s) h k = refl
  put_before (suc r) (suc i) new (x ∷ s) h k = put_before r i new s (omega arith) (omega arith)

  pub put_at : (r : ℕ) (new : A) (s : List A) → r ≤ length s → get_elem? (put r new s) r ≡ some new
  put_at zero new s h = refl
  put_at (suc r) new [] h = absurd (omega arith)
  put_at (suc r) new (x ∷ s) h = put_at r new s (omega arith)

  pub put_after :
      (r i : ℕ) (new : A) (s : List A)
      → r ≤ length s
      → r ≤ i
      → get_elem? (put r new s) (suc i) ≡ get_elem? s i
  put_after zero i new s h k = refl
  put_after (suc r) i new [] h k = absurd (omega arith)
  put_after (suc r) zero new (x ∷ s) h k = absurd (omega arith)
  put_after (suc r) (suc i) new (x ∷ s) h k = put_after r i new s (omega arith) (omega arith)

  pub length-cut_at : (r : ℕ) (s : List A) → r < length s → suc (length (cut_at r s)) ≡ length s
  length-cut_at zero [] h = absurd (omega arith)
  length-cut_at zero (x ∷ s) h = refl
  length-cut_at (suc r) [] h = absurd (omega arith)
  length-cut_at (suc r) (x ∷ s) h = ap suc (length-cut_at r s (omega arith))

  pub cut_before : (r i : ℕ) (s : List A) → i < r → get_elem? (cut_at r s) i ≡ get_elem? s i
  cut_before zero i s k = absurd (omega arith)
  cut_before (suc r) i [] k = refl
  cut_before (suc r) zero (x ∷ s) k = refl
  cut_before (suc r) (suc i) (x ∷ s) k = cut_before r i s (omega arith)

  pub cut_after : (r i : ℕ) (s : List A) → r ≤ i → get_elem? (cut_at r s) i ≡ get_elem? s (suc i)
  cut_after zero i [] k = refl
  cut_after zero i (x ∷ s) k = refl
  cut_after (suc r) i [] k = refl
  cut_after (suc r) zero (x ∷ s) k = absurd (omega arith)
  cut_after (suc r) (suc i) (x ∷ s) k = cut_after r i s (omega arith)

AllAbove-put :
    (h : Bytes) (r : ℕ) (new : RingId) (s : List RingId)
    → AllAbove h s
    → bytes_compare h new.hash ≡ Ordering.lt
    → AllAbove h (put r new s)
AllAbove-put h zero new s a b = (b, a)
AllAbove-put h (suc r) new [] a b = (b, tt)
AllAbove-put h (suc r) new (x ∷ s) a b = (a.0, AllAbove-put h r new s a.1 b)

module _ (new x : RingId) (s : List RingId) (o : IsSorted (x ∷ s)) where
  put-IsSorted_lt :
      bytes_compare x.hash new.hash ≡ Ordering.lt
      → IsSorted (put (rank new.hash s) new s)
      → IsSorted (put (rank new.hash (x ∷ s)) new (x ∷ s))
  unfolding rank compare_id
  put-IsSorted_lt q tail = rw (q, rank) (AllAbove-put x.hash (rank new.hash s) new s o.0 q, tail)

  put-IsSorted_gt :
      bytes_compare x.hash new.hash ≡ Ordering.gt
      → IsSorted (put (rank new.hash (x ∷ s)) new (x ∷ s))
  unfolding rank compare_id
  put-IsSorted_gt q =
      let k = bytes_compare-gt x.hash new.hash q in
      rw (q, rank) ((k, AllAbove-trans new.hash x.hash s k o.0), o)

-- A new hash goes to its rank, and the list stays sorted.
pub put-IsSorted :
    (new : RingId) (s : List RingId)
    → IsSorted s
    → IsAbsent new.hash s
    → IsSorted (put (rank new.hash s) new s)
unfolding rank compare_id
put-IsSorted new [] o fresh = (tt, tt)
put-IsSorted new (x ∷ s) o fresh =
    (elim (bytes_compare x.hash new.hash)
        as (λ c.
          bytes_compare x.hash new.hash ≡ c → IsSorted (put (rank new.hash (x ∷ s)) new (x ∷ s))) [
            | Ordering.lt ↦
                λ q. put-IsSorted_lt new x s o q (put-IsSorted new s o.1 (λ i e. fresh (suc i) e))
            | Ordering.eq ↦ λ q. absurd (fresh zero x refl q)
            | Ordering.gt ↦ λ q. put-IsSorted_gt new x s o q
          ])
      refl

AllAbove-cut : (h : Bytes) (r : ℕ) (s : List RingId) → AllAbove h s → AllAbove h (cut_at r s)
AllAbove-cut h zero [] a = tt
AllAbove-cut h zero (x ∷ s) a = a.1
AllAbove-cut h (suc r) [] a = tt
AllAbove-cut h (suc r) (x ∷ s) a = (a.0, AllAbove-cut h r s a.1)

pub cut-IsSorted : (r : ℕ) (s : List RingId) → IsSorted s → IsSorted (cut_at r s)
cut-IsSorted zero [] o = tt
cut-IsSorted zero (x ∷ s) o = o.1
cut-IsSorted (suc r) [] o = tt
cut-IsSorted (suc r) (x ∷ s) o = (AllAbove-cut x.hash r s o.0, cut-IsSorted r s o.1)

module _ {ℓ} {A : Type ℓ} (r : ℕ) (s : List A) where
  -- The entries of the longer list are the new one and the old ones.
  pub put_cases :
      (new : A) (i : ℕ) (e : A)
      → r ≤ length s
      → get_elem? (put r new s) i ≡ some e
      → (e ≡ new) ⊎ ((j : ℕ) × (get_elem? s j ≡ some e))
  put_cases new i e h q = elim (dec_lt i r) [
    | yes below ↦ inr (i, sym (put_before r i new s h below) ∙ q)
    | no above ↦ put_cases_above i e (omega arith) q
  ]
    where
      put_cases_above :
          (i : ℕ) (e : A)
          → r ≤ i
          → get_elem? (put r new s) i ≡ some e
          → (e ≡ new) ⊎ ((j : ℕ) × (get_elem? s j ≡ some e))
      put_cases_above i e k q = elim (ℕ_discrete i r) [
        | yes here ↦
            let found : get_elem? (put r new s) r ≡ some e =
              subst (λ j. get_elem? (put r new s) j ≡ some e) here q in
            inl (cc (put_at r new s h))
        | no past ↦ inr (
          i - 1,
          sym (put_after r (i - 1) new s h (omega arith))
              ∙ subst (λ j. get_elem? (put r new s) j ≡ some e) (omega arith) q,
        )
      ]

  pub put_keeps :
      (new : A) (j : ℕ) (e : A)
      → r ≤ length s
      → get_elem? s j ≡ some e
      → (i : ℕ) × (get_elem? (put r new s) i ≡ some e)
  put_keeps new j e h q = elim (dec_lt j r) [
    | yes below ↦ (j, put_before r j new s h below ∙ q)
    | no above ↦ (suc j, put_after r j new s h (omega arith) ∙ q)
  ]

  -- The entries of the shorter list are the others of the longer one.
  pub cut_cases :
      (i : ℕ) (e : A)
      → get_elem? (cut_at r s) i ≡ some e
      → (j : ℕ) × (j ≢ r) × (get_elem? s j ≡ some e)
  cut_cases i e q = elim (dec_lt i r) [
    | yes below ↦ (i, omega arith, sym (cut_before r i s below) ∙ q)
    | no above ↦ (suc i, omega arith, sym (cut_after r i s (omega arith)) ∙ q)
  ]

  pub cut_keeps :
      (j : ℕ) (e : A)
      → j ≢ r
      → get_elem? s j ≡ some e
      → (i : ℕ) × (get_elem? (cut_at r s) i ≡ some e)
  cut_keeps j e h q = elim (dec_lt j r) [
    | yes below ↦ (j, cut_before r j s below ∙ q)
    | no above ↦ (
      j - 1,
      cut_after r (j - 1) s (omega arith) ∙ subst (λ i. get_elem? s i ≡ some e) (omega arith) q,
    )
  ]
