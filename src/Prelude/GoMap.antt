-- ===== src/Prelude/GoMap.antt =====
-- A Go map as an association list: `m[k]` with its `ok`, `m[k] = v`, and `delete(m, k)`.
use mathlib.Core.Path.{◌≡◌, refl, ap, sym}
use mathlib.Core.Bool.{Bool, true, false, not, ◌&&◌, ◌||◌}
use mathlib.Core.Option.{Option, none, some}
use mathlib.Core.List.{List, [], ◌∷◌}
use native.Mathlib.Omega.{arith}
use ifrit.Prelude.Tests.{if◌then◌else◌}
use ifrit.Prelude.Keys.{Eq, ◌=?◌, =?_iff}

module _ {ℓ κ} {K : Type ℓ} {V : Type κ} ⦃e : Eq K⦄ where
  unfoldable pub lookup : K → List (K × V) → Option V
  lookup k [] = none
  lookup k ((j, v) ∷ m) = if j =? k then some v else lookup k m

  unfoldable pub insert : K → V → List (K × V) → List (K × V)
  insert k v [] = (k, v) ∷ []
  insert k v ((j, w) ∷ m) = if j =? k then (k, v) ∷ m else (j, w) ∷ insert k v m

  unfoldable pub delete : K → List (K × V) → List (K × V)
  delete k [] = []
  delete k ((j, w) ∷ m) = let rest = delete k m in if j =? k then rest else (j, w) ∷ rest

  unfoldable pub has : K → List (K × V) → Bool
  has k [] = false
  has k ((j, v) ∷ m) = if j =? k then true else has k m

  pub lookup-insert :
      (k j : K) (v : V) (m : List (K × V))
      → lookup j (insert k v m) ≡ (if k =? j then some v else lookup j m)
  unfolding lookup insert
  lookup-insert k j v [] = refl
  lookup-insert k j v ((i, w) ∷ m) =
      ground (arith, =?_iff k j, =?_iff i k, =?_iff i j, lookup-insert k j v m)

  pub lookup-delete :
      (k j : K) (m : List (K × V)) → lookup j (delete k m) ≡ (if k =? j then none else lookup j m)
  unfolding lookup delete
  lookup-delete k j [] = ground arith
  lookup-delete k j ((i, w) ∷ m) =
      ground (arith, =?_iff k j, =?_iff i k, =?_iff i j, lookup-delete k j m)

  pub has-lookup :
      (k : K) (m : List (K × V)) → has k m ≡ elim (lookup k m) [ none ↦ false | some v ↦ true ]
  unfolding has lookup
  has-lookup k [] = refl
  has-lookup k ((j, v) ∷ m) = ground (arith, has-lookup k m)

  pub has-insert :
      (k j : K) (v : V) (m : List (K × V)) → has j (insert k v m) ≡ ((k =? j) || has j m)
  unfolding has insert
  has-insert k j v [] = ground arith
  has-insert k j v ((i, w) ∷ m) =
      ground (arith, =?_iff k j, =?_iff i k, =?_iff i j, has-insert k j v m)

  pub has-delete : (k j : K) (m : List (K × V)) → has j (delete k m) ≡ (not (k =? j) && has j m)
  unfolding has delete
  has-delete k j [] = ground arith
  has-delete k j ((i, w) ∷ m) = ground (arith, =?_iff k j, =?_iff i k, =?_iff i j, has-delete k j m)

  -- Equal keys.
  pub has_same : (k j : K) (m : List (K × V)) → (k =? j) ≡ true → has j m ≡ has k m
  has_same k j m h = ap (λ i. has i m) (sym ((=?_iff k j).0 h))
